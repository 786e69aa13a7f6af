-- ===== src/Attributes.antt =====
-- model/attributes.go: the attributes of a model, by name.
use ara.Prelude.{String, ◌≡◌, ◌≢◌, some, [], ite, arith, string_dec, string_key}
use ara.GoMap.{Map, get, set, get-set, get-[], IsDistinct}
use ara.GoMap.Loops.{fill, get-fill}

abbrev pub Attributes : Type 0
Attributes = Map String String

-- NewAttributes
abbrev pub empty : Attributes
empty = []

-- Set, which ignores an empty value
unfoldable pub put : Attributes → String → String → Attributes
put attributes key value = ite (string_dec value "") attributes (set attributes key value)

unfoldable pub copy : Attributes → Attributes
copy attributes = fill (λ _ v. v) empty attributes

-- No attribute is the empty text.
abbrev pub HasNoBlank : Attributes → Type 0
HasNoBlank attributes = (key : String) → get attributes key ≢ some ""

pub put-HasNoBlank :
    (attributes : Attributes) (key value : String)
    → HasNoBlank attributes
    → HasNoBlank (put attributes key value)
unfolding put
put-HasNoBlank attributes key value h k e = ground (arith, get-set attributes key value k, h k)

pub get-copy :
    (attributes : Attributes) (key : String)
    → IsDistinct attributes
    → get (copy attributes) key ≡ get attributes key
unfolding copy
get-copy attributes key d =
    ground (arith, get-fill (λ _ v. v) empty attributes key d, get-[] {V = String} key)
