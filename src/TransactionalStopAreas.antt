-- ===== src/TransactionalStopAreas.antt =====
-- model/transactional_stop_areas.go: the searches that a transaction makes on stop areas.
pub mod Deleted
use ara.Prelude.{
  ℕ, String, Bool, true, false, Option, none, some, List, [], ◌∷◌, ◌++◌, ite, if◌then◌else◌,
  string_dec, string_key,
}
use ara.GoMap.{Map, get}
use ara.ObjectId.{ObjectId, object_id_key}
use ara.ObjectIdIndex.{ModelId}
use ara.StopArea.{StopArea, copy, stop_area_entity}
use ara.StopAreas
use ara.StopAreas.{StopAreas, with_line}
use ara.References.{LineId}
use ara.Transaction.{Changes, unsaved}

-- FindByLineId
unfoldable pub find_by_line_id : Changes StopArea → StopAreas → LineId → List StopArea
find_by_line_id tx parent id =
    with_line tx.saved id ++ unsaved tx (StopAreas.find_by_line_id parent id)

abbrev pub is_deleted : Changes StopArea → ModelId → Bool
is_deleted tx id = elim (get tx.deleted id) [ none ↦ false | some sa ↦ true ]

-- the loops of FindByOrigin and FindFamily
unfoldable pub undeleted : Changes StopArea → List ModelId → List ModelId
undeleted tx [] = []
undeleted tx (id ∷ ids) =
    let rest = undeleted tx ids in if is_deleted tx id then rest else id ∷ rest

-- FindByOrigin
unfoldable pub find_by_origin : Changes StopArea → StopAreas → String → List ModelId
unfolding undeleted
find_by_origin tx parent origin = undeleted tx (StopAreas.find_by_origin parent origin)

abbrev pub within {ℓ} : {A B : Type ℓ} → (A → B) → Option A → Option B
within f none = none
within f (some a) = some (f a)

-- FindFamily, to a depth of recursion of the manager below
unfoldable pub find_family : ℕ → Changes StopArea → StopAreas → ModelId → Option (List ModelId)
unfolding undeleted
find_family depth tx parent id =
    within (undeleted tx) (StopAreas.find_family depth parent.store.by_identifier id)

-- what the transaction has saved under the id, or else the stop area of the manager below
abbrev pub current_copy : Option StopArea → StopArea → StopArea
current_copy none sa = sa
current_copy (some saved) sa = copy saved

-- the loop of FindAscendants
unfoldable pub revise : Changes StopArea → List StopArea → List StopArea
revise tx [] = []
revise tx (sa ∷ sas) =
    let rest = revise tx sas in
    if is_deleted tx sa.id then rest else current_copy (get tx.saved sa.id) sa ∷ rest

-- FindAscendants
unfoldable pub find_ascendants : ℕ → Changes StopArea → StopAreas → ModelId → Option (List StopArea)
unfolding revise
find_ascendants depth tx parent id =
    within (revise tx) (StopAreas.find_ascendants depth parent.store.by_identifier id)

abbrev pub has_value : Option ObjectId → ObjectId → Bool
has_value none o = false
has_value (some p) o = ite (string_dec p.value o.value) true false

-- findByObjectIdInDeleted
unfoldable pub is_of_deleted : Map ModelId StopArea → ObjectId → Bool
is_of_deleted [] o = false
is_of_deleted ((_, sa) ∷ rest) o =
    let later = is_of_deleted rest o in
    if has_value (get sa.object_ids o.kind) o then true else later

-- the loop of FindAscendantsWithObjectIdKind
unfoldable pub keep_identifiers : Changes StopArea → List ObjectId → List ObjectId
unfolding is_of_deleted
keep_identifiers tx [] = []
keep_identifiers tx (o ∷ os) =
    let rest = keep_identifiers tx os in if is_of_deleted tx.deleted o then rest else o ∷ rest

-- FindAscendantsWithObjectIdKind
unfoldable pub find_ascendants_with_kind :
    ℕ → Changes StopArea → StopAreas → String → ModelId → Option (List ObjectId)
unfolding keep_identifiers
find_ascendants_with_kind depth tx parent kind id =
    within (keep_identifiers tx)
      (StopAreas.find_ascendants_with_kind depth parent.store.by_identifier kind id)
