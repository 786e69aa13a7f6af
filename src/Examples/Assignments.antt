-- ===== src/Examples/Assignments.antt =====
-- The index by an attribute at concrete inputs.
use ara.Prelude.{◌≡◌, refl, List, [], ◌∷◌, none, some, string_dec, string_key}
use ara.GoMap.{get, set, delete}
use ara.Index
use ara.Index.{empty, slice, find}
use ara.Index.Slots.{count}
use ara.Index.Consistency.{assigned}
use ara.Index.History.{Call, call, indexes, run, contracts, find_exact}

-- two stop visits of a stop area, one of which moves to another
abbrev moves : List Call
moves = indexes "visit1" "area1" ∷ indexes "visit2" "area1" ∷ indexes "visit1" "area2" ∷ []

find_exact_example :
    count "visit1" (slice (find (run empty moves) "area2"))
    ≡ assigned (contracts (λ j. none) moves "visit1") "area2"
find_exact_example = find_exact moves "area2" "visit1"

moves_test : find (run empty moves) "area1" ≡ some ("visit2" ∷ [])
unfolding find run string_dec get call Index.index set delete
moves_test = refl
