-- ===== src/Store.antt =====
-- What the managers of package model have in common (model/stop_area.go, model/stop_visit.go,
-- model/lines.go, model/vehicle_journey.go, model/vehicles.go): the models by their id, and an
-- ObjectIdIndex to find one by an identifier.
-- A manager keeps the pointer that it is given. It is a value here, which is the same as long as the
-- caller does not write to a model that it has saved.
pub mod Answers
pub mod Histories
pub mod Refinement
pub mod Keeping
pub mod Links
use ara.Prelude.{
  String, ◌≡◌, Bool, true, false, Option, none, some, List, [], ◌∷◌, ite, if◌then◌else◌, string_dec,
  string_key,
}
use ara.GoMap.{Map, get, set, delete}
use ara.ObjectId.{ObjectId, ObjectIds}
use ara.ObjectIdIndex.{ModelId, ModelInstance, ObjectIdIndex}
use ara.ObjectIdIndex

-- A model that a manager can keep. `copy` shares the map of identifiers with the original.
pub record Entity (M : Type 0) : Type 0 where
  pub model_id : M → ModelId
  pub object_ids : M → ObjectIds
  pub with_id : M → ModelId → M
  pub copy : M → M
  pub model_id-with_id : (m : M) (id : ModelId) → model_id (with_id m id) ≡ id
  pub object_ids-with_id : (m : M) (id : ModelId) → object_ids (with_id m id) ≡ object_ids m
  pub model_id-copy : (m : M) → model_id (copy m) ≡ model_id m
  pub object_ids-copy : (m : M) → object_ids (copy m) ≡ object_ids m

instance abbrev pub as_instance : {M : Type 0} ⦃e : Entity M⦄ → ModelInstance M
as_instance ⦃e⦄ = record { model_id = e.model_id; object_ids = e.object_ids }

pub record Store (M : Type 0) : Type 0 where
  pub by_identifier : Map ModelId M
  pub by_object_id : ObjectIdIndex

abbrev pub empty : {M : Type 0} → Store M
empty = record { by_identifier = []; by_object_id = ObjectIdIndex.empty }

-- The result of a search; `panic` is the nil dereference of a model that the index names and the
-- manager does not have.
pub data Found (M : Type 0) : Type 0 where
  found : M → Found M
  missing panic : Found M

module _ {M : Type 0} ⦃e : Entity M⦄ where
  -- Find
  unfoldable pub find : Store M → ModelId → Option M
  find s id = elim (get s.by_identifier id) [ none ↦ none | some m ↦ some (e.copy m) ]

  unfoldable pub dereference : Option M → Found M
  dereference none = panic
  dereference (some m) = found (e.copy m)

  unfoldable pub found_at : Store M → Option ModelId → Found M
  unfolding dereference
  found_at s none = missing
  found_at s (some id) = dereference (get s.by_identifier id)

  -- FindByObjectId
  unfoldable pub find_by_object_id : Store M → ObjectId → Found M
  unfolding found_at
  find_by_object_id s o = found_at s (ObjectIdIndex.find s.by_object_id o)

  unfoldable pub copies : Map ModelId M → List M
  copies [] = []
  copies ((_, m) ∷ rest) = e.copy m ∷ copies rest

  -- FindAll
  unfoldable pub find_all : Store M → List M
  unfolding copies
  find_all s = copies s.by_identifier

  -- the start of Save: a model with no id gets a new one
  unfoldable pub identified : ModelId → M → M
  identified uuid m = ite (string_dec (e.model_id m) "") (e.with_id m uuid) m

  unfoldable pub keep : Store M → M → Store M
  keep s m = record {
    by_identifier = set s.by_identifier (e.model_id m) m;
    by_object_id = ObjectIdIndex.index s.by_object_id m;
  }

  -- Save, with the UUID that the generator would give; the model comes back with its id
  unfoldable pub save : Store M → ModelId → M → Store M × M
  unfolding keep identified
  save s uuid m = (keep s (identified uuid m), identified uuid m)

  -- Delete
  unfoldable pub remove : Store M → M → Store M
  remove s m = record {
    by_identifier = delete s.by_identifier (e.model_id m);
    by_object_id = ObjectIdIndex.remove s.by_object_id (e.model_id m);
  }
