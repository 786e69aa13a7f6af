-- ===== src/StopAreas/Family.antt =====
-- findFamily of model/stop_area.go: when it ends, and what it lists.
use ara.Prelude.{
  ℕ, zero, suc, ◌<◌, ◌≡◌, refl, true, Option, none, some, List, [], ◌∷◌, ◌++◌, arith, string_key,
  Bool-cases, inl, inr,
}
use ara.GoMap.{Map, get}
use ara.ObjectIdIndex.{ModelId}
use ara.StopArea.{StopArea}
use ara.StopAreas.{is_child, join, family_of, find_family}

-- A height for the stop areas: each stands below its parent and below its referent.
abbrev pub IsHeight : Map ModelId StopArea → (ModelId → ℕ) → Type 0
IsHeight [] height = Unit
IsHeight ((_, sa) ∷ rest) height =
    (height sa.id < height sa.parent_id)
    × (height sa.id < height sa.referent_id)
    × IsHeight rest height

family_of_total :
    (recur : ModelId → Option (List ModelId)) (id : ModelId) (by : Map ModelId StopArea)
    (height : ModelId → ℕ)
    → IsHeight by height
    → ((j : ModelId) → height j < height id → (l : List ModelId) × (recur j ≡ some l))
    → (l : List ModelId) × (family_of recur id by ≡ some l)
unfolding family_of
family_of_total recur id [] height h r = ([], refl)
family_of_total recur id ((k, sa) ∷ rest) height h r =
    let (ys, f) = family_of_total recur id rest height h.2 r in
    elim (Bool-cases (is_child sa id)) [
      | inr n ↦ (ys, rw (n, family_of) f)
      | inl c ↦ let (xs, g) = r sa.id (ground arith) in (xs ++ ys, rw (c, g, f))
    ]

-- Where each stop area has a smaller height than its parent id and its referent id, findFamily
-- ends with a list within any depth of recursion above the height of the id asked for.
pub find_family_total :
    (depth : ℕ) (by : Map ModelId StopArea) (id : ModelId) (height : ModelId → ℕ)
    → IsHeight by height
    → height id < depth
    → (l : List ModelId) × (find_family depth by id ≡ some l)
unfolding find_family
find_family_total zero by id height h d = absurd (omega arith)
find_family_total (suc depth) by id height h d =
    let (l, e) =
      family_of_total (λ j. find_family depth by j) id by height h
        (λ j lt. find_family_total depth by j height h (omega arith)) in
    (id ∷ l, rw (e, find_family))

join-none : {A : Type 0} (xs : Option (List A)) → join xs none ≡ none
join-none none = refl
join-none (some xs) = refl

family_of-none :
    (recur : ModelId → Option (List ModelId)) (id : ModelId) (by : Map ModelId StopArea)
    (k : ModelId) (sa : StopArea)
    → get by k ≡ some sa
    → is_child sa id ≡ true
    → recur sa.id ≡ none
    → family_of recur id by ≡ none
unfolding family_of get
family_of-none recur id [] k sa g c r = cc
family_of-none recur id ((j, other) ∷ rest) k sa g c r =
    ground (arith, family_of-none recur id rest k sa, join-none (recur other.id))

-- On a stop area that is kept under its own id and is its own parent or referent, findFamily does
-- not end at any depth of recursion.
pub find_family_loops :
    (depth : ℕ) (by : Map ModelId StopArea) (sa : StopArea)
    → get by sa.id ≡ some sa
    → is_child sa sa.id ≡ true
    → find_family depth by sa.id ≡ none
unfolding find_family
find_family_loops zero by sa g c = refl
find_family_loops (suc depth) by sa g c = rw (
    family_of-none (λ j. find_family depth by j) sa.id by sa.id sa g c
      (find_family_loops depth by sa g c))
