-- ===== src/ObjectIdIndex/Effect.antt =====
-- What Index and Delete of model/objectid_index.go do to Find and to the recorded identifiers.
use ara.Prelude.{
  ◌≡◌, Bool, true, Option, none, some, [], ite, if◌then◌else◌, arith, string_dec, string_key,
}
use ara.GoMap.{Map, get, get-set, get-delete, get-[], IsDistinct}
use ara.ObjectId.{ObjectId, ObjectIds, object_id_key}
use ara.ObjectId.Laws.{IsKeyed}
use ara.ObjectIdIndex.{
  ModelId, ModelInstance, ObjectIdIndex, or_empty, unindex_stale, index, find, remove, remove_known,
  stale, record_all,
}
use ara.ObjectIdIndex.Lookups.{
  carries, get-unindex, get-enter, get-record_all, record_all-IsDistinct, stale-carries,
}

-- what is recorded for a model
abbrev pub identifiers : ObjectIdIndex → ModelId → ObjectIds
identifiers ix id = or_empty (get ix.by_identifier id)

abbrev pub recorded : ObjectIdIndex → ModelId → ObjectId → Bool
recorded ix id o = carries (identifiers ix id) o

-- Identifiers as SetObjectID and NewObjectIDsFromMap build them.
pub record AreIdentifiers (ids : ObjectIds) : Type 0 where
  pub distinct : IsDistinct ids
  pub keyed : IsKeyed ids

abbrev pub IsWellFormed : ObjectIdIndex → Type 0
IsWellFormed ix = (id : ModelId) → AreIdentifiers (identifiers ix id)

pub []-AreIdentifiers : AreIdentifiers []
unfolding get
[]-AreIdentifiers = record { distinct = tt; keyed = λ k o e. ground arith }

record_all-AreIdentifiers :
    (ids known : ObjectIds)
    → AreIdentifiers ids
    → AreIdentifiers known
    → AreIdentifiers (record_all ids known)
record_all-AreIdentifiers ids known a b = record {
  distinct = record_all-IsDistinct ids known b.distinct;
  keyed = λ k o e.
      ground (arith, get-record_all ids known k a.distinct a.keyed, a.keyed k o, b.keyed k o);
}

get-unindex_stale :
    (ids : ObjectIds) (current : Option ObjectIds) (by : Map ObjectId ModelId) (o : ObjectId)
    → AreIdentifiers ids
    → AreIdentifiers (or_empty current)
    → get (unindex_stale ids current by) o ≡ (
        if carries (or_empty current) o
        then (if carries ids o then get by o else none)
        else get by o)
get-unindex_stale ids none by o a b = ground (arith, get-[] {V = ObjectId} o.kind)
get-unindex_stale ids (some known) by o a b =
    ground
      (arith, get-unindex (stale ids) known by o b.distinct b.keyed, stale-carries ids o a.keyed)

module _ {M : Type 0} ⦃inst : ModelInstance M⦄ where
  -- After Index, an identifier of the model finds it; one that was recorded for the model and is no
  -- longer carried finds nothing; any other finds what it found before.
  pub find-index :
      (ix : ObjectIdIndex) (m : M) (o : ObjectId)
      → IsWellFormed ix
      → AreIdentifiers (inst.object_ids m)
      → find (index ix m) o ≡ (
          if carries (inst.object_ids m) o
          then some (inst.model_id m)
          else if recorded ix (inst.model_id m) o
          then none
          else find ix o)
  unfolding find index
  find-index ix m o w a = ground (
    arith,
    get-enter (inst.model_id m) (inst.object_ids m)
        (unindex_stale (inst.object_ids m) (get ix.by_identifier (inst.model_id m)) ix.by_object_id)
        o a.distinct a.keyed,
    get-unindex_stale (inst.object_ids m) (get ix.by_identifier (inst.model_id m)) ix.by_object_id o
        a (w (inst.model_id m)),
  )

  pub identifiers-index :
      (ix : ObjectIdIndex) (m : M) (id : ModelId)
      → identifiers (index ix m) id
        ≡ ite
            (string_dec (inst.model_id m) id)
            (record_all (inst.object_ids m) (identifiers ix (inst.model_id m)))
            (identifiers ix id)
  unfolding index
  identifiers-index ix m id = ground (
    arith,
    get-set ix.by_identifier (inst.model_id m)
        (record_all (inst.object_ids m) (identifiers ix (inst.model_id m))) id,
  )

  pub index-IsWellFormed :
      (ix : ObjectIdIndex) (m : M)
      → AreIdentifiers (inst.object_ids m)
      → IsWellFormed ix
      → IsWellFormed (index ix m)
  index-IsWellFormed ix m a w id =
      rw (identifiers-index ix m id)
        (elim (string_dec (inst.model_id m) id)
          as (λ d. AreIdentifiers (
            ite d (record_all (inst.object_ids m) (identifiers ix (inst.model_id m)))
              (identifiers ix id))) [
                | yes _ ↦ record_all-AreIdentifiers _ _ a (w (inst.model_id m))
                | no _ ↦ w id
              ])

find-remove_known :
    (ix : ObjectIdIndex) (id : ModelId) (current : Option ObjectIds) (o : ObjectId)
    → AreIdentifiers (or_empty current)
    → find (remove_known ix id current) o
      ≡ (if carries (or_empty current) o then none else find ix o)
unfolding find remove_known
find-remove_known ix id none o a = ground (arith, get-[] {V = ObjectId} o.kind)
find-remove_known ix id (some known) o a =
    ground (arith, get-unindex (λ _ _. true) known ix.by_object_id o a.distinct a.keyed)

-- After Delete, what was recorded for the model finds nothing, and the rest what it found before.
pub find-remove :
    (ix : ObjectIdIndex) (id : ModelId) (o : ObjectId)
    → IsWellFormed ix
    → find (remove ix id) o ≡ (if recorded ix id o then none else find ix o)
unfolding remove
find-remove ix id o w = find-remove_known ix id (get ix.by_identifier id) o (w id)

pub identifiers-remove :
    (ix : ObjectIdIndex) (id j : ModelId)
    → identifiers (remove ix id) j ≡ ite (string_dec id j) [] (identifiers ix j)
unfolding remove
identifiers-remove ix id j = ground (arith, get-delete ix.by_identifier id j)

pub remove-IsWellFormed :
    (ix : ObjectIdIndex) (id : ModelId) → IsWellFormed ix → IsWellFormed (remove ix id)
remove-IsWellFormed ix id w j =
    rw (identifiers-remove ix id j)
      (elim (string_dec id j) as (λ d. AreIdentifiers (ite d [] (identifiers ix j))) [
        | yes _ ↦ []-AreIdentifiers
        | no _ ↦ w j
      ])
