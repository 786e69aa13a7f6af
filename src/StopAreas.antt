-- ===== src/StopAreas.antt =====
-- model/stop_area.go, the manager MemoryStopAreas.
pub mod Family
pub mod Members
pub mod Ascendants
pub mod Climbed
use ara.Prelude.{
  ℕ, zero, suc, String, Bool, true, false, ◌||◌, Option, none, some, List, [], ◌∷◌, ◌++◌, ite,
  if◌then◌else◌, string_dec, string_key,
}
use ara.GoMap.{Map, get}
use ara.ObjectId.{ObjectId}
use ara.ObjectIdIndex.{ModelId}
use ara.Store
use ara.Store.{Store, Found}
use ara.StopArea.{StopArea, copy, stop_area_entity}
use ara.References.{contains, LineId}

-- model/stop_visit_broadcast_event.go
pub record BroadcastEvent : Type 0 where
  pub model_id : String
  pub model_type : String

-- The events that the callback was given, newest first; `broadcasts` is whether there is a callback.
pub record StopAreas : Type 0 where
  pub store : Store StopArea
  pub broadcasts : Bool
  pub events : List BroadcastEvent

-- NewMemoryStopAreas, with the callback that the model sets
abbrev pub empty : Bool → StopAreas
empty broadcasts = record { store = Store.empty; broadcasts = broadcasts; events = [] }

-- Find
unfoldable pub find : StopAreas → ModelId → Option StopArea
find manager id = Store.find manager.store id

-- FindByObjectId
unfoldable pub find_by_object_id : StopAreas → ObjectId → Found StopArea
find_by_object_id manager o = Store.find_by_object_id manager.store o

abbrev pub event_for : StopArea → BroadcastEvent
event_for sa = record { model_id = sa.id; model_type = "StopArea" }

-- Save, once the stop area has an id
unfoldable pub keep : StopAreas → StopArea → StopAreas
keep manager sa = record manager {
  store = Store.keep manager.store sa;
  events = if manager.broadcasts then event_for sa ∷ manager.events else manager.events;
}

-- Save
unfoldable pub save : StopAreas → ModelId → StopArea → StopAreas × StopArea
unfolding keep
save manager uuid sa = (keep manager (Store.identified uuid sa), Store.identified uuid sa)

-- Delete
unfoldable pub remove : StopAreas → StopArea → StopAreas
remove manager sa = record manager { store = Store.remove manager.store sa }

-- the loops of FindByLineId and FindByOrigin
unfoldable pub with_line : Map ModelId StopArea → LineId → List StopArea
with_line [] id = []
with_line ((_, sa) ∷ rest) id =
    let others = with_line rest id in if contains sa.line_ids id then copy sa ∷ others else others

unfoldable pub find_by_line_id : StopAreas → LineId → List StopArea
unfolding with_line
find_by_line_id manager id = with_line manager.store.by_identifier id

abbrev pub is_some : Option Bool → Bool
is_some none = false
is_some (some b) = true

unfoldable pub with_origin : Map ModelId StopArea → String → List ModelId
with_origin [] origin = []
with_origin ((_, sa) ∷ rest) origin =
    let others = with_origin rest origin in
    if is_some (get sa.origins origin) then sa.id ∷ others else others

unfoldable pub find_by_origin : StopAreas → String → List ModelId
unfolding with_origin
find_by_origin manager origin = with_origin manager.store.by_identifier origin

abbrev pub same_id : ModelId → ModelId → Bool
same_id a b = ite (string_dec a b) true false

abbrev pub is_child : StopArea → ModelId → Bool
is_child sa id = same_id sa.parent_id id || same_id sa.referent_id id

-- append(a, b...) of two results, where none is a recursion that has not come to an end
abbrev pub join {ℓ} : {A : Type ℓ} → Option (List A) → Option (List A) → Option (List A)
join none b = none
join (some xs) none = none
join (some xs) (some ys) = some (xs ++ ys)

-- the loop of findFamily, over the recursive call
unfoldable pub family_of :
    (ModelId → Option (List ModelId)) → ModelId → Map ModelId StopArea → Option (List ModelId)
family_of recur id [] = some []
family_of recur id ((_, sa) ∷ rest) =
    let others = family_of recur id rest in
    if is_child sa id then join (recur sa.id) others else others

-- findFamily, to a depth of recursion
unfoldable pub find_family : ℕ → Map ModelId StopArea → ModelId → Option (List ModelId)
unfolding family_of
find_family zero by id = none
find_family (suc depth) by id =
    join (some (id ∷ [])) (family_of (λ j. find_family depth by j) id by)

-- `if id != "" { append(…, recurse(id)...) }`
abbrev pub unless_blank {ℓ} : {A : Type ℓ} → ModelId → Option (List A) → Option (List A)
unless_blank id rest = ite (string_dec id "") (some []) rest

-- findAscendants, over the recursive call and the stop area found
unfoldable pub ascendants_of :
    (ModelId → Option (List StopArea)) → Option StopArea → Option (List StopArea)
ascendants_of recur none = some []
ascendants_of recur (some sa) = join (some (copy sa ∷ [])) (
    join (unless_blank sa.parent_id (recur sa.parent_id))
      (unless_blank sa.referent_id (recur sa.referent_id)))

unfoldable pub find_ascendants : ℕ → Map ModelId StopArea → ModelId → Option (List StopArea)
unfolding ascendants_of
find_ascendants zero by id = none
find_ascendants (suc depth) by id = ascendants_of (λ j. find_ascendants depth by j) (get by id)

abbrev pub one_or_none : Option ObjectId → List ObjectId
one_or_none none = []
one_or_none (some o) = o ∷ []

unfoldable pub object_ids_of :
    String → (ModelId → Option (List ObjectId)) → Option StopArea → Option (List ObjectId)
object_ids_of kind recur none = some []
object_ids_of kind recur (some sa) = join (some (one_or_none (get sa.object_ids kind))) (
    join (unless_blank sa.parent_id (recur sa.parent_id))
      (unless_blank sa.referent_id (recur sa.referent_id)))

-- findAscendantsWithObjectIdKind
unfoldable pub find_ascendants_with_kind :
    ℕ → Map ModelId StopArea → String → ModelId → Option (List ObjectId)
unfolding object_ids_of
find_ascendants_with_kind zero by kind id = none
find_ascendants_with_kind (suc depth) by kind id =
    object_ids_of kind (λ j. find_ascendants_with_kind depth by kind j) (get by id)
