-- ===== src/Store/Answers.antt =====
-- Searches by identifier never fail on a missing model, and answer with a model that has the
-- identifier.
use ara.Prelude.{
  ◌≡◌, refl, Bool, true, false, Option, none, some, ite, arith, string_dec, string_key,
}
use ara.GoMap.{get, get-set, get-delete, get-[]}
use ara.ObjectId.{ObjectId, ObjectIds, object_id_key}
use ara.ObjectIdIndex
use ara.ObjectIdIndex.{ModelId, ObjectIdIndex}
use ara.ObjectIdIndex.Lookups.{carries}
use ara.ObjectIdIndex.Effect.{AreIdentifiers, find-index, find-remove}
use ara.ObjectIdIndex.Refinement.{IsOwned, index-IsOwned, remove-IsOwned, empty-IsExact}
use ara.Store.{
  Entity, as_instance, Store, Found, found, missing, panic, empty, found_at, dereference,
  find_by_object_id, identified, keep, save, remove,
}

module _ {M : Type 0} ⦃e : Entity M⦄ where
  -- the model kept under an id has the identifier
  abbrev pub carried : Option M → ObjectId → Bool
  carried none o = false
  carried (some m) o = carries (e.object_ids m) o

  pub record IsSound (s : Store M) : Type 0 where
    pub index_lem : IsOwned s.by_object_id
    pub named : (id : ModelId) (m : M) → get s.by_identifier id ≡ some m → e.model_id m ≡ id
    pub answers :
        (o : ObjectId) (id : ModelId)
        → ObjectIdIndex.find s.by_object_id o ≡ some id
        → carried (get s.by_identifier id) o ≡ true

  pub empty-IsSound : IsSound empty
  empty-IsSound = record {
    index_lem = empty-IsExact.is_owned;
    named = λ id m h. ground (arith, get-[] {V = M} id);
    answers = λ o id h. ground (
      arith,
      empty-IsExact.is_owned.owned o id h,
      get-[] {V = ObjectIds} id,
      get-[] {V = ObjectId} o.kind,
    );
  }

  pub keep-IsSound :
      (s : Store M) (m : M) → AreIdentifiers (e.object_ids m) → IsSound s → IsSound (keep s m)
  unfolding keep
  keep-IsSound s m a x = record {
    index_lem = index-IsOwned s.by_object_id m a x.index_lem;
    named = λ id n h. ground (arith, get-set s.by_identifier (e.model_id m) m id, x.named id n);
    answers = λ o id h. ground (
      arith,
      find-index s.by_object_id m o x.index_lem.well_formed a,
      get-set s.by_identifier (e.model_id m) m id,
      x.answers o id,
      x.index_lem.owned o id,
    );
  }

  pub identified-AreIdentifiers :
      (uuid : ModelId) (m : M)
      → AreIdentifiers (e.object_ids m)
      → AreIdentifiers (e.object_ids (identified uuid m))
  unfolding identified
  identified-AreIdentifiers uuid m a =
      elim (string_dec (e.model_id m) "")
        as (λ d. AreIdentifiers (e.object_ids (ite d (e.with_id m uuid) m))) [
          | yes _ ↦ rw (e.object_ids-with_id m uuid) a
          | no _ ↦ a
        ]

  -- Save keeps a sound manager sound, for a new model and for one that was saved before, where the
  -- identifiers of the model are as the code builds them.
  pub save-IsSound :
      (s : Store M) (uuid : ModelId) (m : M)
      → AreIdentifiers (e.object_ids m)
      → IsSound s
      → IsSound (save s uuid m).0
  unfolding save
  save-IsSound s uuid m a x =
      keep-IsSound s (identified uuid m) (identified-AreIdentifiers uuid m a) x

  pub remove-IsSound : (s : Store M) (m : M) → IsSound s → IsSound (remove s m)
  unfolding remove
  remove-IsSound s m x = record {
    index_lem = remove-IsOwned s.by_object_id (e.model_id m) x.index_lem;
    named = λ id n h. ground (arith, get-delete s.by_identifier (e.model_id m) id, x.named id n);
    answers = λ o id h. ground (
      arith,
      find-remove s.by_object_id (e.model_id m) o x.index_lem.well_formed,
      get-delete s.by_identifier (e.model_id m) id,
      x.answers o id,
      x.index_lem.owned o id,
    );
  }

  -- what a search may return: nothing, or a model that has the identifier
  abbrev pub IsAnswer : ObjectId → Found M → Type 0
  IsAnswer o (found m) = carries (e.object_ids m) o ≡ true
  IsAnswer o missing = Unit
  IsAnswer o panic = ⊥

  dereference-IsAnswer :
      (kept : Option M) (o : ObjectId) → carried kept o ≡ true → IsAnswer o (dereference kept)
  unfolding dereference
  dereference-IsAnswer none o h = cc
  dereference-IsAnswer (some m) o h = rw (e.object_ids-copy m) h

  found_at-IsAnswer :
      (s : Store M) (r : Option ModelId) (o : ObjectId)
      → ((id : ModelId) → r ≡ some id → carried (get s.by_identifier id) o ≡ true)
      → IsAnswer o (found_at s r)
  unfolding found_at
  found_at-IsAnswer s none o h = tt
  found_at-IsAnswer s (some id) o h = dereference-IsAnswer (get s.by_identifier id) o (h id refl)

  -- On a sound manager FindByObjectId never dereferences a missing model, and a model that it
  -- returns has the identifier asked for.
  pub find_by_object_id-IsAnswer :
      (s : Store M) (o : ObjectId) → IsSound s → IsAnswer o (find_by_object_id s o)
  unfolding find_by_object_id
  find_by_object_id-IsAnswer s o x =
      found_at-IsAnswer s (ObjectIdIndex.find s.by_object_id o) o (x.answers o)
