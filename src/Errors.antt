-- ===== src/Errors.antt =====
-- core/errors.go: the errors of a definition that the API was given, by attribute.
-- The map holds a slice of messages for an attribute, and under "Settings" a map of the same kind
-- for the settings, in which there are only slices.
use ara.Prelude.{
  String, ◌≡◌, refl, false, Option, none, some, List, [], ◌∷◌, ◌++◌, if◌then◌else◌, string_key,
  arith, Option-cases, inl, inr, Bool-cases,
}
use ara.GoMap.{Map, get, set, is_empty, is_empty-get}
use ara.CollectSettings.{include}

pub data Entry : Type 0 where
  messages : List String → Entry
  nested : Map String (List String) → Entry

abbrev pub Errors : Type 0
Errors = Map String Entry

abbrev pub no_errors : Errors
no_errors = []

abbrev pub settings_key : String
settings_key = "Settings"

abbrev pub error_blank : String
error_blank = "Can't be empty"

abbrev pub error_slug_format : String
error_slug_format = "Invalid format: only lowercase alphanumeric characters and _"

abbrev pub error_unique : String
error_unique = "Is already in use"

abbrev pub messages_of : Option Entry → List String
messages_of (some (messages l)) = l
messages_of _ = []

-- Get
unfoldable pub get_errors : Errors → String → List String
get_errors errors attribute = messages_of (get errors attribute)

abbrev pub with_message : List String → String → List String
with_message l message = if include l message then l else l ++ message ∷ []

-- Add and added, on what there is for the attribute
unfoldable pub add_to : Errors → String → String → Option Entry → Errors
add_to errors attribute message none = set errors attribute (messages (message ∷ []))
add_to errors attribute message (some (messages l)) =
    if include l message then errors else set errors attribute (messages (l ++ message ∷ []))
add_to errors attribute message (some (nested e)) = errors

-- Add
unfoldable pub add : Errors → String → String → Errors
unfolding add_to
add errors attribute message = add_to errors attribute message (get errors attribute)

abbrev pub or_nothing : Option (List String) → List String
or_nothing none = []
or_nothing (some l) = l

abbrev pub add_nested : Map String (List String) → String → String → Map String (List String)
add_nested e attribute message =
    set e attribute (with_message (or_nothing (get e attribute)) message)

-- AddSettingError; none is the panic of the type assertion
unfoldable pub add_setting_to : Errors → String → String → Option Entry → Option Errors
add_setting_to errors attribute message none =
    some (set errors settings_key (nested (add_nested [] attribute message)))
add_setting_to errors attribute message (some (nested e)) =
    some (set errors settings_key (nested (add_nested e attribute message)))
add_setting_to errors attribute message (some (messages l)) = none

unfoldable pub add_setting_error : Errors → String → String → Option Errors
unfolding add_setting_to
add_setting_error errors attribute message =
    add_setting_to errors attribute message (get errors settings_key)

kept-is_empty :
    (errors : Errors) (attribute : String) (entry : Entry)
    → get errors attribute ≡ some entry
    → is_empty errors ≡ false
kept-is_empty errors attribute entry e = elim (Bool-cases (is_empty errors)) [
  | inl h ↦ absurd (ground (arith, is_empty-get errors attribute h))
  | inr h ↦ h
]

-- After Add, there is an error.
pub is_empty-add :
    (errors : Errors) (attribute message : String) → is_empty (add errors attribute message) ≡ false
unfolding add add_to set is_empty
is_empty-add errors attribute message = elim (Option-cases (get errors attribute)) [
  | inl e ↦ rw e refl
  | inr (nested n, e) ↦ rw e (kept-is_empty errors attribute (nested n) e)
  | inr (messages l, e) ↦ let kept = kept-is_empty errors attribute (messages l) e in ground arith
]
