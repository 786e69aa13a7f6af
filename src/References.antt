-- ===== src/References.antt =====
-- model/reference.go and model/references.go: the references of a model, by name; and
-- model/stop_area_line_ids.go.
pub mod Complete
pub mod LineIds
use ara.Prelude.{
  String, Bool, true, false, ◌&&◌, ◌||◌, Option, none, some, List, [], ◌∷◌, ◌++◌, ite,
  if◌then◌else◌, string_dec, string_key,
}
use ara.GoMap.{Map, get, set, is_empty}
use ara.GoMap.Loops.{fill}
use ara.ObjectId.{ObjectId, new}

abbrev pub is_blank : String → Bool
is_blank s = ite (string_dec s "") true false

-- `none` is a nil ObjectId
pub record Reference : Type 0 where
  pub object_id : Option ObjectId
  pub type_name : String

abbrev pub References : Type 0
References = Map String Reference

-- NewReferences
abbrev pub empty : References
empty = []

-- SetReference
unfoldable pub set_reference : References → String → Reference → References
set_reference references key r = set references key r

-- an identifier with no kind or no value
abbrev pub is_partial : ObjectId → Bool
is_partial o = is_blank o.kind || is_blank o.value

-- SetObjectId
unfoldable pub set_object_id : References → String → ObjectId → References
set_object_id references key obj =
    if is_partial obj
    then references
    else set references key (record { object_id = some obj; type_name = "" })

-- the second test of Set, whose calls dereference the pointer; `none` is the panic on a nil one
unfoldable pub set_checked : References → String → Reference → Option ObjectId → Option References
set_checked references key value none = none
set_checked references key value (some o) =
    some (if is_partial o then references else set references key value)

abbrev pub is_nil : Option ObjectId → Bool
is_nil none = true
is_nil (some o) = false

-- Set
unfoldable pub put : References → String → Reference → Option References
unfolding set_checked
put references key value =
    if is_nil value.object_id && is_blank value.type_name
    then some references
    else set_checked references key value value.object_id

-- the entry that Copy makes
abbrev pub duplicate_id : Option ObjectId → Option ObjectId
duplicate_id none = none
duplicate_id (some o) = some (new o.kind o.value)

abbrev pub duplicate : String → Reference → Reference
duplicate key value = record {
  object_id = duplicate_id value.object_id;
  type_name = value.type_name;
}

unfoldable pub copy : References → References
copy references = fill duplicate empty references

-- one round of the loop of GetSiriReferences; `none` is the panic on a nil ObjectId
unfoldable pub siri_entry :
    Map String String → String → Option ObjectId → Option (Map String String)
siri_entry acc key none = none
siri_entry acc key (some o) = some (set acc key o.value)

unfoldable pub siri_go : References → Option (Map String String) → Option (Map String String)
siri_go references none = none
siri_go [] (some acc) = some acc
siri_go ((k, r) ∷ rest) (some acc) = siri_go rest (siri_entry acc k r.object_id)

-- GetSiriReferences
unfoldable pub siri_references : References → Option (Map String String)
unfolding siri_entry
siri_references references = siri_go references (some [])

abbrev pub LineId : Type 0
LineId = String

-- StopAreaLineIds.Contains
unfoldable pub contains : List LineId → LineId → Bool
contains [] id = false
contains (line_id ∷ ids) id = let rest = contains ids id in ite (string_dec line_id id) true rest

-- StopAreaLineIds.Add
unfoldable pub add : List LineId → LineId → List LineId
unfolding contains
add ids id = if contains ids id then ids else ids ++ id ∷ []
