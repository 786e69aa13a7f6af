-- ===== src/ObjectIdIndex.antt =====
-- model/objectid_index.go: finds a model by one of its identifiers, and remembers for each model
-- the identifiers under which it was indexed.
pub mod Lookups
pub mod Effect
pub mod Refinement
pub mod History
use ara.Prelude.{
  String, Bool, true, false, Option, none, some, [], ◌∷◌, ite, if◌then◌else◌, string_dec,
  string_key,
}
use ara.GoMap.{Map, get, set, delete}
use ara.ObjectId.{ObjectId, ObjectIds, object_id_key}

abbrev pub ModelId : Type 0
ModelId = String

-- model/model_interface.go: what an index asks of a model
pub record ModelInstance (M : Type 0) : Type 0 where
  pub model_id : M → ModelId
  pub object_ids : M → ObjectIds

pub record ObjectIdIndex : Type 0 where
  pub by_object_id : Map ObjectId ModelId
  pub by_identifier : Map ModelId ObjectIds

-- NewObjectIdIndex
abbrev pub empty : ObjectIdIndex
empty = record { by_object_id = []; by_identifier = [] }

-- the test of the first loop of Index: the model has lost the identifier, or changed its value
unfoldable pub stale_among : Option ObjectId → ObjectId → Bool
stale_among none indexed = true
stale_among (some o) indexed = ite (string_dec o.value indexed.value) false true

unfoldable pub stale : ObjectIds → String → ObjectId → Bool
unfolding stale_among
stale ids indexed_kind indexed = stale_among (get ids indexed_kind) indexed

-- the loops that delete from byObjectid
unfoldable pub unindex :
    (String → ObjectId → Bool) → ObjectIds → Map ObjectId ModelId → Map ObjectId ModelId
unindex test [] by = by
unindex test ((kind, o) ∷ ids) by = unindex test ids (if test kind o then delete by o else by)

-- the last loop of Index, on each of its two maps
unfoldable pub enter : ModelId → ObjectIds → Map ObjectId ModelId → Map ObjectId ModelId
enter id [] by = by
enter id ((_, o) ∷ ids) by = enter id ids (set by o id)

unfoldable pub record_all : ObjectIds → ObjectIds → ObjectIds
record_all [] known = known
record_all ((_, o) ∷ ids) known = record_all ids (set known o.kind o)

abbrev or_empty : Option ObjectIds → ObjectIds
or_empty none = []
or_empty (some ids) = ids

abbrev unindex_stale : ObjectIds → Option ObjectIds → Map ObjectId ModelId → Map ObjectId ModelId
unindex_stale ids none by = by
unindex_stale ids (some current) by = unindex (stale ids) current by

module _ {M : Type 0} ⦃inst : ModelInstance M⦄ where
  unfoldable pub index : ObjectIdIndex → M → ObjectIdIndex
  index ix model = record {
    by_object_id = enter id ids (unindex_stale ids current ix.by_object_id);
    by_identifier = set ix.by_identifier id (record_all ids (or_empty current));
  }
    where
      id : ModelId
      id = inst.model_id model

      ids : ObjectIds
      ids = inst.object_ids model

      current : Option ObjectIds
      current = get ix.by_identifier id

unfoldable pub find : ObjectIdIndex → ObjectId → Option ModelId
find ix o = get ix.by_object_id o

-- the body of Delete, once the recorded identifiers are looked up
unfoldable pub remove_known : ObjectIdIndex → ModelId → Option ObjectIds → ObjectIdIndex
remove_known ix id none = ix
remove_known ix id (some current) = record {
  by_object_id = unindex (λ _ _. true) current ix.by_object_id;
  by_identifier = delete ix.by_identifier id;
}

-- Delete
unfoldable pub remove : ObjectIdIndex → ModelId → ObjectIdIndex
unfolding remove_known
remove ix id = remove_known ix id (get ix.by_identifier id)
