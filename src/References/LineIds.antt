-- ===== src/References/LineIds.antt =====
-- model/stop_area_line_ids.go: the lines of a stop area, each once.
use ara.Prelude.{◌≡◌, refl, true, false, List, [], ◌∷◌, ◌++◌, ite, if◌then◌else◌, arith, string_dec}
use ara.References.{LineId, contains, add}

contains-append :
    (ids : List LineId) (id j : LineId)
    → contains (ids ++ id ∷ []) j
      ≡ (if contains ids j then true else ite (string_dec id j) true false)
unfolding contains
contains-append [] id j = refl
contains-append (i ∷ ids) id j = ground (arith, contains-append ids id j)

-- Add puts the line in, and no other.
pub contains-add :
    (ids : List LineId) (id j : LineId)
    → contains (add ids id) j ≡ ite (string_dec id j) true (contains ids j)
unfolding add
contains-add ids id j = ground (arith, contains-append ids id j)

-- no line stands twice
abbrev pub IsUnique : List LineId → Type 0
IsUnique [] = Unit
IsUnique (id ∷ ids) = (contains ids id ≡ false) × IsUnique ids

append-IsUnique :
    (ids : List LineId) (id : LineId)
    → contains ids id ≡ false
    → IsUnique ids
    → IsUnique (ids ++ id ∷ [])
unfolding contains
append-IsUnique [] id h u = (refl, tt)
append-IsUnique (i ∷ ids) id h u =
    (ground (arith, contains-append ids id i), append-IsUnique ids id (ground arith) u.1)

pub add-IsUnique : (ids : List LineId) (id : LineId) → IsUnique ids → IsUnique (add ids id)
unfolding add
add-IsUnique ids id u = ground (arith, append-IsUnique ids id)
