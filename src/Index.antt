-- ===== src/Index.antt =====
-- model/index.go: a secondary index, from an attribute of the models (the stop area of a stop
-- visit, say) to the models that have it.
pub mod Slots
pub mod Consistency
pub mod History
use ara.Prelude.{
  String, Bool, true, false, ◌&&◌, Option, none, some, List, [], ◌∷◌, ◌++◌, ite, if◌then◌else◌,
  string_dec, string_key,
}
use ara.GoMap.{Map, get, set, delete}

abbrev pub ModelId : Type 0
ModelId = String

-- The extractor is the same for the life of an index, and is passed to `index`.
pub record Index : Type 0 where
  pub by_indexable : Map ModelId (List ModelId)
  pub by_identifier : Map ModelId ModelId

-- NewIndex
abbrev pub empty : Index
empty = record { by_indexable = []; by_identifier = [] }

-- the slice at a key; a missing key reads as the nil slice
abbrev pub slice : Option (List ModelId) → List ModelId
slice none = []
slice (some ids) = ids

-- append(s[:i], s[i+1:]...) at the first i with s[i] == id, if there is one
unfoldable pub without : ModelId → List ModelId → List ModelId
without id [] = []
without id (j ∷ ids) = ite (string_dec j id) ids (j ∷ without id ids)

unfoldable pub contains : ModelId → List ModelId → Bool
contains id [] = false
contains id (j ∷ ids) = ite (string_dec j id) true (contains id ids)

-- store a shortened slice, or delete the key of an empty one
unfoldable pub put_back :
    Map ModelId (List ModelId) → ModelId → List ModelId → Map ModelId (List ModelId)
put_back by indexable [] = delete by indexable
put_back by indexable (id ∷ ids) = set by indexable (id ∷ ids)

-- removeFromIndexable: nothing for an empty slice or an id that is not in it
unfoldable pub remove_from_indexable :
    Map ModelId (List ModelId) → ModelId → ModelId → Map ModelId (List ModelId)
unfolding contains without put_back
remove_from_indexable by indexable id =
    if contains id (slice (get by indexable))
    then put_back by indexable (without id (slice (get by indexable)))
    else by

-- the part of Index before the append: what is left of byIndexable, or `none` for the early return
unfoldable pub detach :
    Index → ModelId → ModelId → Option ModelId → Option (Map ModelId (List ModelId))
unfolding remove_from_indexable
detach ix id indexable none = some ix.by_indexable
detach ix id indexable (some current) =
    ite (string_dec current indexable) none
      (some (remove_from_indexable ix.by_indexable current id))

unfoldable pub attach : Index → ModelId → ModelId → Option (Map ModelId (List ModelId)) → Index
attach ix id indexable none = ix
attach ix id indexable (some by) = record {
  by_indexable = set by indexable (slice (get by indexable) ++ id ∷ []);
  by_identifier = set ix.by_identifier id indexable;
}

-- Index, on the model's id and what the extractor gives for it
unfoldable pub index : Index → ModelId → ModelId → Index
unfolding detach attach
index ix id indexable = attach ix id indexable (detach ix id indexable (get ix.by_identifier id))

-- Find
unfoldable pub find : Index → ModelId → Option (List ModelId)
find ix indexable = get ix.by_indexable indexable

unfoldable pub remove_known : Index → ModelId → Option ModelId → Index
unfolding remove_from_indexable
remove_known ix id none = ix
remove_known ix id (some current) = record {
  by_indexable = remove_from_indexable ix.by_indexable current id;
  by_identifier = delete ix.by_identifier id;
}

-- Delete
unfoldable pub remove : Index → ModelId → Index
unfolding remove_known
remove ix id = remove_known ix id (get ix.by_identifier id)
