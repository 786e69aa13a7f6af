-- ===== src/References/Complete.antt =====
-- The references that Set and SetObjectId of model/references.go build, and the panics that they
-- avoid or meet.
use ara.Prelude.{
  Option-cases, inl, inr, sym, ap, ◌∙◌, not, String, ◌≡◌, ◌≢◌, ◌↔◌, refl, Bool, true, false, Option,
  none, some, [], ◌∷◌, ite, arith, string_dec, string_key,
}
use ara.GoMap.{Map, get, set, get-set, IsDistinct, get-[]}
use ara.GoMap.Loops.{filled, get-fill}
use ara.ObjectId.{ObjectId}
use ara.References.{
  Reference, References, empty, is_partial, set_object_id, set_checked, put, duplicate,
  duplicate_id, copy, siri_entry, siri_go, siri_references,
}

-- the reference names an identifier with a kind and a value
abbrev pub is_named : Option ObjectId → Bool
is_named none = false
is_named (some o) = not (is_partial o)

abbrev pub IsComplete : References → Type 0
IsComplete references =
    (key : String) (r : Reference) → get references key ≡ some r → is_named r.object_id ≡ true

-- SetObjectId stores only references that name an identifier.
pub set_object_id-IsComplete :
    (references : References) (key : String) (obj : ObjectId)
    → IsComplete references
    → IsComplete (set_object_id references key obj)
unfolding set_object_id
set_object_id-IsComplete references key obj c k r e =
    ground
      (arith, get-set references key (record { object_id = some obj; type_name = "" }) k, c k r)

-- Set panics exactly on a reference that has a type and no identifier.
pub put-eq-none_iff :
    (references : References) (key : String) (value : Reference)
    → (put references key value ≡ none) ↔ ((value.object_id ≡ none) × (value.type_name ≢ ""))
unfolding put set_checked
put-eq-none_iff references key value = ground arith

-- Where Set does not panic, references that each have an identifier with a kind and a value stay
-- so.
pub put-IsComplete :
    (references updated : References) (key : String) (value : Reference)
    → put references key value ≡ some updated
    → IsComplete references
    → IsComplete updated
unfolding put set_checked
put-IsComplete references updated key value p c k r e =
    ground (arith, get-set references key value k, c k r)

duplicate_id_lem : (o : Option ObjectId) → duplicate_id o ≡ o
duplicate_id_lem none = refl
duplicate_id_lem (some o) = refl

duplicate_lem : (key : String) (r : Reference) → duplicate key r ≡ r
duplicate_lem key r i = record {
  object_id = duplicate_id_lem r.object_id i;
  type_name = r.type_name;
}

filled_lem : (key : String) (o : Option Reference) → filled duplicate key o none ≡ o
filled_lem key none = refl
filled_lem key (some r) = ap some (duplicate_lem key r)

-- A copy has the same references.
pub get-copy :
    (references : References) (key : String)
    → IsDistinct references
    → get (copy references) key ≡ get references key
unfolding copy
get-copy references key d =
    get-fill duplicate empty references key d
    ∙ ap (filled duplicate key (get references key)) (get-[] key)
    ∙ filled_lem key (get references key)

-- the value that a reference of the map has in the answer of GetSiriReferences
abbrev pub id_value : Option ObjectId → Option String
id_value none = none
id_value (some o) = some o.value

abbrev pub siri_value : Option Reference → Option String → Option String
siri_value none old = old
siri_value (some r) old = id_value r.object_id

-- the entries of complete references are complete
IsComplete-tail :
    (k : String) (r : Reference) (references : References)
    → IsDistinct {K = String} ((k, r) ∷ references)
    → IsComplete ((k, r) ∷ references)
    → (is_named r.object_id ≡ true) × IsComplete references
unfolding get
IsComplete-tail k r references d c = (c k r (ground arith), λ j s e. ground (arith, c j s))

siri_entry_named :
    (acc : Map String String) (key : String) (o : Option ObjectId)
    → is_named o ≡ true
    → (m : Map String String) × (siri_entry acc key o ≡ some m)
unfolding siri_entry
siri_entry_named acc key none h = cc
siri_entry_named acc key (some o) h = (set acc key o.value, refl)

siri_go_total :
    (references : References) (acc : Map String String)
    → IsDistinct references
    → IsComplete references
    → (m : Map String String) × (siri_go references (some acc) ≡ some m)
unfolding siri_go
siri_go_total [] acc d c = (acc, refl)
siri_go_total ((k, r) ∷ references) acc d c =
    let t = IsComplete-tail k r references d c in
    let (m, e) = siri_entry_named acc k r.object_id t.0 in
    let (n, f) = siri_go_total references m d.1 t.1 in (n, rw (e, siri_go) f)

-- On references with distinct names that each have an identifier with a kind and a value,
-- GetSiriReferences gives a map and does not panic.
pub siri_references_total :
    (references : References)
    → IsDistinct references
    → IsComplete references
    → (m : Map String String) × (siri_references references ≡ some m)
unfolding siri_references
siri_references_total references d c = siri_go_total references [] d c

get-siri_entry :
    (acc m : Map String String) (k : String) (o : Option ObjectId) (key : String)
    → siri_entry acc k o ≡ some m
    → get m key ≡ ite (string_dec k key) (id_value o) (get acc key)
unfolding siri_entry
get-siri_entry acc m k none key e = cc
get-siri_entry acc m k (some o) key e = ground (arith, get-set acc k o.value key)

siri_go-none : (references : References) → siri_go references none ≡ none
unfolding siri_go
siri_go-none [] = refl
siri_go-none (x ∷ references) = refl

get-siri_go :
    (references : References) (acc m : Map String String) (key : String)
    → IsDistinct references
    → siri_go references (some acc) ≡ some m
    → get m key ≡ siri_value (get references key) (get acc key)
unfolding siri_go get
get-siri_go [] acc m key d e = ground arith
get-siri_go ((k, r) ∷ references) acc m key d e =
    elim (Option-cases (siri_entry acc k r.object_id)) [
      | inl f ↦ cc (siri_go-none references)
      | inr (n, f) ↦ ground (
        arith,
        get-siri_entry acc n k r.object_id key f,
        get-siri_go references n m key d.1 (ap (siri_go references) (sym f) ∙ e),
      )
    ]

-- Where it answers, it gives the value of the identifier of each reference.
pub get-siri_references :
    (references : References) (m : Map String String) (key : String)
    → IsDistinct references
    → siri_references references ≡ some m
    → get m key ≡ siri_value (get references key) none
unfolding siri_references
get-siri_references references m key d e =
    get-siri_go references [] m key d e ∙ ap (siri_value (get references key)) (get-[] key)
