-- ===== src/Examples/Families.antt =====
-- The searches along parents and referents at concrete stop areas.
use ara.Prelude.{ℕ, ◌≡◌, refl, true, none, some, List, [], ◌∷◌, ite, string_dec, string_key, arith}
use ara.GoMap.{Map, get, IsDistinct}
use ara.GoMap.Keys.{has}
use ara.ObjectIdIndex.{ModelId}
use ara.StopArea.{StopArea}
use ara.StopAreas.{find_family}
use ara.StopAreas.Family.{IsHeight, find_family_total, find_family_loops}
use ara.StopAreas.Members.{Descends, itself, below, find_family-Descends, has-find_family}
use ara.Examples.Samples.{bare}

-- a stop area of which another is a part
abbrev station : StopArea
station = bare "station"

abbrev platform : StopArea
platform = record (bare "platform") { parent_id = "station"; referent_id = "platform-of-record" }

abbrev areas : Map ModelId StopArea
areas = ("platform", platform) ∷ []

abbrev height : ModelId → ℕ
height id = ite (string_dec id "platform") 0 1

areas-IsHeight : IsHeight areas height
unfolding string_dec
areas-IsHeight = (omega arith, omega arith, tt)

find_family_total_example : (l : List ModelId) × (find_family 2 areas "station" ≡ some l)
unfolding string_dec
find_family_total_example = find_family_total 2 areas "station" height areas-IsHeight (omega arith)

family_test : find_family 2 areas "station" ≡ some ("station" ∷ "platform" ∷ [])
unfolding find_family string_dec
family_test = refl

areas-IsDistinct : IsDistinct areas
unfolding get
areas-IsDistinct = (refl, tt)

platform_listed : has {K = ModelId} ("station" ∷ "platform" ∷ []) "platform" ≡ true
unfolding has string_dec
platform_listed = refl

find_family-Descends_example : Descends areas "platform" "station"
find_family-Descends_example =
    find_family-Descends 2 areas "station" "platform" ("station" ∷ "platform" ∷ []) areas-IsDistinct
      family_test platform_listed

platform-Descends : Descends areas "platform" "station"
unfolding get string_dec
platform-Descends = below "platform" platform refl refl itself

has-find_family_example : has {K = ModelId} ("station" ∷ "platform" ∷ []) "platform" ≡ true
has-find_family_example =
    has-find_family 2 areas "station" "platform" ("station" ∷ "platform" ∷ []) platform-Descends
      family_test

-- a stop area that is its own parent
abbrev knot : StopArea
knot = record (bare "knot") { parent_id = "knot" }

find_family_loops_example : find_family 100 (("knot", knot) ∷ []) "knot" ≡ none
unfolding get string_dec
find_family_loops_example = find_family_loops 100 (("knot", knot) ∷ []) knot refl refl
