-- ===== src/Store/Keeping.antt =====
-- A manager whose models all have identifiers as the code builds them: so has what a search finds.
use ara.Prelude.{
  ◌≡◌, refl, sym, subst, Option, none, some, arith, string_key, string_dec, Option-cases, inl, inr,
}
use ara.GoMap.{get, get-set, get-delete, get-[]}
use ara.ObjectId.{ObjectId}
use ara.ObjectIdIndex
use ara.ObjectIdIndex.{ModelId}
use ara.ObjectIdIndex.Effect.{AreIdentifiers}
use ara.Store.{
  Entity, as_instance, Store, Found, found, missing, panic, empty, find, found_at, dereference,
  find_by_object_id, keep, remove,
}
use ara.Store.Answers.{
  IsSound, keep-IsSound, remove-IsSound, empty-IsSound, IsAnswer, find_by_object_id-IsAnswer,
}

module _ {M : Type 0} ⦃e : Entity M⦄ where
  pub record IsProper (s : Store M) : Type 0 where
    pub sound : IsSound s
    pub identifiers :
        (id : ModelId) (m : M) → get s.by_identifier id ≡ some m → AreIdentifiers (e.object_ids m)

  pub empty-IsProper : IsProper empty
  empty-IsProper = record {
    sound = empty-IsSound;
    identifiers = λ id m h. absurd (ground (arith, get-[] {V = M} id));
  }

  kept_identifiers :
      (s : Store M) (m : M) (id : ModelId) (n : M)
      → AreIdentifiers (e.object_ids m)
      → (get s.by_identifier id ≡ some n → AreIdentifiers (e.object_ids n))
      → get (keep s m).by_identifier id ≡ some n
      → AreIdentifiers (e.object_ids n)
  unfolding keep
  kept_identifiers s m id n a b h = elim (string_dec (e.model_id m) id) [
    | yes p ↦
        let q : m ≡ n = ground (arith, get-set s.by_identifier (e.model_id m) m id) in rw (sym q) a
    | no f ↦ b (ground (arith, get-set s.by_identifier (e.model_id m) m id))
  ]

  pub keep-IsProper :
      (s : Store M) (m : M) → AreIdentifiers (e.object_ids m) → IsProper s → IsProper (keep s m)
  keep-IsProper s m a x = record {
    sound = keep-IsSound s m a x.sound;
    identifiers = λ id n h. kept_identifiers s m id n a (x.identifiers id n) h;
  }

  pub remove-IsProper : (s : Store M) (m : M) → IsProper s → IsProper (remove s m)
  unfolding remove
  remove-IsProper s m x = record {
    sound = unfold remove in remove-IsSound s m x.sound;
    identifiers =
        λ id n h. x.identifiers id n (ground (arith, get-delete s.by_identifier (e.model_id m) id));
  }

  -- what a search may find: nothing, or a model with identifiers as the code builds them
  abbrev pub IsProperAnswer : Found M → Type 0
  IsProperAnswer (found m) = AreIdentifiers (e.object_ids m)
  IsProperAnswer missing = Unit
  IsProperAnswer panic = ⊥

  dereference-IsProper :
      (s : Store M) (id : ModelId) (o : Option M)
      → IsProper s
      → get s.by_identifier id ≡ o
      → (dereference o ≡ panic → ⊥)
      → IsProperAnswer (dereference o)
  unfolding dereference
  dereference-IsProper s id none x h n = n refl
  dereference-IsProper s id (some m) x h n = rw (e.object_ids-copy m) (x.identifiers id m h)

  no_panic : (o : ObjectId) (f : Found M) → IsAnswer o f → f ≡ panic → ⊥
  no_panic o f a p = subst (IsAnswer o) p a

  found_at-IsProper :
      (s : Store M) (r : Option ModelId)
      → IsProper s
      → (found_at s r ≡ panic → ⊥)
      → IsProperAnswer (found_at s r)
  unfolding found_at
  found_at-IsProper s none x n = tt
  found_at-IsProper s (some id) x n = dereference-IsProper s id (get s.by_identifier id) x refl n

  pub find_by_object_id-IsProper :
      (s : Store M) (o : ObjectId) → IsProper s → IsProperAnswer (find_by_object_id s o)
  unfolding find_by_object_id
  find_by_object_id-IsProper s o x = found_at-IsProper s (ObjectIdIndex.find s.by_object_id o) x (
      no_panic o (found_at s (ObjectIdIndex.find s.by_object_id o))
        (unfold find_by_object_id in find_by_object_id-IsAnswer s o x.sound))

  pub find-AreIdentifiers :
      (s : Store M) (id : ModelId) (m : M)
      → IsProper s
      → find s id ≡ some m
      → AreIdentifiers (e.object_ids m)
  unfolding find
  find-AreIdentifiers s id m x h = elim (Option-cases (get s.by_identifier id)) [
    | inl p ↦ absurd (ground arith)
    | inr (n, p) ↦
        let q : e.copy n ≡ m = ground arith in
        rw (sym q, e.object_ids-copy n) (x.identifiers id n p)
  ]
