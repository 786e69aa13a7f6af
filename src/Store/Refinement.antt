-- ===== src/Store/Refinement.antt =====
-- What Find and FindByObjectId answer after Save and Delete.
use ara.Prelude.{◌≡◌, true, Option, none, some, ite, arith, string_dec, string_key}
use ara.GoMap.{get-set, get-delete}
use ara.ObjectId.{ObjectId, object_id_key}
use ara.ObjectIdIndex
use ara.ObjectIdIndex.{ModelId, ObjectIdIndex}
use ara.ObjectIdIndex.Lookups.{carries}
use ara.ObjectIdIndex.Effect.{AreIdentifiers, find-index, find-remove}
use ara.Store.{
  Entity, as_instance, Store, found, missing, find, found_at, dereference, find_by_object_id,
  identified, keep, save, remove,
}
use ara.Store.Answers.{IsSound, identified-AreIdentifiers}

module _ {M : Type 0} ⦃e : Entity M⦄ where
  abbrev pub copied : Option M → Option M
  copied none = none
  copied (some m) = some (e.copy m)

  pub find-keep :
      (s : Store M) (m : M) (id : ModelId)
      → find (keep s m) id ≡ ite (string_dec (e.model_id m) id) (some (e.copy m)) (find s id)
  unfolding find keep
  find-keep s m id = ground (arith, get-set s.by_identifier (e.model_id m) m id)

  -- Save keeps a model that has an id under that id, and a new one under the UUID; no other id is
  -- touched.
  pub find-save :
      (s : Store M) (uuid : ModelId) (m : M) (id : ModelId)
      → find (save s uuid m).0 id
        ≡ ite
            (string_dec (e.model_id (identified uuid m)) id)
            (some (e.copy (identified uuid m)))
            (find s id)
  unfolding find save keep
  find-save s uuid m id =
      ground
        (arith, get-set s.by_identifier (e.model_id (identified uuid m)) (identified uuid m) id)

  pub model_id-identified :
      (uuid : ModelId) (m : M)
      → e.model_id (identified uuid m) ≡ ite (string_dec (e.model_id m) "") uuid (e.model_id m)
  unfolding identified
  model_id-identified uuid m = ground (arith, e.model_id-with_id m uuid)

  object_ids-identified :
      (uuid : ModelId) (m : M) → e.object_ids (identified uuid m) ≡ e.object_ids m
  unfolding identified
  object_ids-identified uuid m = ground (arith, e.object_ids-with_id m uuid)

  pub find_by_object_id-keep :
      (s : Store M) (m : M) (o : ObjectId)
      → IsSound s
      → AreIdentifiers (e.object_ids m)
      → carries (e.object_ids m) o ≡ true
      → find_by_object_id (keep s m) o ≡ found (e.copy m)
  unfolding find_by_object_id keep found_at dereference
  find_by_object_id-keep s m o x a c = ground (
    arith,
    find-index s.by_object_id m o x.index_lem.well_formed a,
    get-set s.by_identifier (e.model_id m) m (e.model_id m),
  )

  -- On a sound manager, a saved model whose identifiers are as the code builds them is found, as a
  -- copy with its id, by each identifier that it carries.
  pub find_by_object_id-save :
      (s : Store M) (uuid : ModelId) (m : M) (o : ObjectId)
      → IsSound s
      → AreIdentifiers (e.object_ids m)
      → carries (e.object_ids m) o ≡ true
      → find_by_object_id (save s uuid m).0 o ≡ found (e.copy (identified uuid m))
  unfolding save
  find_by_object_id-save s uuid m o x a c =
      find_by_object_id-keep s (identified uuid m) o x (identified-AreIdentifiers uuid m a)
        (rw (object_ids-identified uuid m) c)

  pub find-remove_lem :
      (s : Store M) (m : M) (id : ModelId)
      → find (remove s m) id ≡ ite (string_dec (e.model_id m) id) none (find s id)
  unfolding find remove
  find-remove_lem s m id = ground (arith, get-delete s.by_identifier (e.model_id m) id)

  -- On a sound manager, an identifier that stands for a model finds nothing once that model is
  -- deleted.
  pub find_by_object_id-remove :
      (s : Store M) (m : M) (o : ObjectId)
      → IsSound s
      → ObjectIdIndex.find s.by_object_id o ≡ some (e.model_id m)
      → find_by_object_id (remove s m) o ≡ missing
  unfolding find_by_object_id remove found_at
  find_by_object_id-remove s m o x h = ground (
    arith,
    find-remove s.by_object_id (e.model_id m) o x.index_lem.well_formed,
    x.index_lem.owned o (e.model_id m),
  )
