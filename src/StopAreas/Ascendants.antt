-- ===== src/StopAreas/Ascendants.antt =====
-- findAscendants of model/stop_area.go: when it ends.
use ara.Prelude.{
  ℕ, zero, suc, ◌<◌, ◌≡◌, ◌≢◌, refl, Option, some, List, [], ◌∷◌, ◌++◌, ite, arith, string_dec,
  string_key, Option-cases, inl, inr,
}
use ara.GoMap.{Map, get}
use ara.ObjectIdIndex.{ModelId}
use ara.StopArea.{StopArea, copy}
use ara.StopAreas.{unless_blank, ascendants_of, find_ascendants}

-- A depth for the stop areas: each stands deeper than the parent and the referent that it names.
abbrev pub IsDepth : Map ModelId StopArea → (ModelId → ℕ) → Type 0
IsDepth by depth =
    (k : ModelId) (sa : StopArea)
    → get by k ≡ some sa
    → (sa.parent_id ≢ "" → depth sa.parent_id < depth k)
      × (sa.referent_id ≢ "" → depth sa.referent_id < depth k)

unless_blank_total :
    {A : Type 0} (id : ModelId) (rest : Option (List A))
    → (id ≢ "" → (l : List A) × (rest ≡ some l))
    → (l : List A) × (unless_blank id rest ≡ some l)
unless_blank_total id rest h =
    elim (string_dec id "") as (λ d. (l : List _) × (ite d (some []) rest ≡ some l)) [
      | yes p ↦ ([], refl)
      | no n ↦ h n
    ]

-- Where each stop area of the map has a greater depth than the parent and the referent that it
-- names, findAscendants ends with a list within any depth of recursion above the depth of the id
-- asked for.
pub find_ascendants_total :
    (fuel : ℕ) (by : Map ModelId StopArea) (id : ModelId) (depth : ModelId → ℕ)
    → IsDepth by depth
    → depth id < fuel
    → (l : List StopArea) × (find_ascendants fuel by id ≡ some l)
unfolding find_ascendants
find_ascendants_total zero by id depth h d = absurd (omega arith)
find_ascendants_total (suc fuel) by id depth h d = elim (Option-cases (get by id)) [
  | inl e ↦ ([], rw (e, ascendants_of))
  | inr (sa, e) ↦
      let (xs, p) = unless_blank_total sa.parent_id (find_ascendants fuel by sa.parent_id) (λ n.
        find_ascendants_total fuel by sa.parent_id depth h (omega (arith, (h id sa e).0 n))) in
      let (ys, q) = unless_blank_total sa.referent_id (find_ascendants fuel by sa.referent_id) (λ n.
        find_ascendants_total fuel by sa.referent_id depth h (omega (arith, (h id sa e).1 n))) in
      (copy sa ∷ (xs ++ ys), rw (e, ascendants_of, p, q))
]
