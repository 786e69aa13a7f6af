-- ===== src/StopAreas/Members.antt =====
-- findFamily of model/stop_area.go lists a stop area and what stands below it, and no other.
use ara.Prelude.{
  subst, ◌⊎◌, ◌⊎◌, ℕ, zero, suc, ◌≡◌, refl, true, ◌||◌, Option, none, some, List, [], ◌∷◌, ◌++◌,
  arith, string_dec, string_key, Bool-cases, inl, inr,
}
use ara.GoMap.{Map, get, IsDistinct}
use ara.GoMap.Keys.{has}
use ara.ObjectIdIndex.{ModelId}
use ara.StopArea.{StopArea}
use ara.StopAreas.{is_child, join, family_of, find_family}

-- `j` is `id`, or stands below it by parents and referents.
pub data Descends (by : Map ModelId StopArea) (j : ModelId) : ModelId → Type 0 where
  itself : Descends by j j
  below :
      {id : ModelId} (k : ModelId) (sa : StopArea)
      → get by k ≡ some sa
      → is_child sa id ≡ true
      → Descends by j sa.id
      → Descends by j id

has-append : (xs ys : List ModelId) (j : ModelId) → has (xs ++ ys) j ≡ (has xs j || has ys j)
unfolding has
has-append [] ys j = refl
has-append (x ∷ xs) ys j = ground (arith, has-append xs ys j)

has-join :
    (a b : Option (List ModelId)) (l : List ModelId) (j : ModelId)
    → join a b ≡ some l
    → has l j ≡ true
    → ((xs : List ModelId) × (a ≡ some xs) × (has xs j ≡ true))
      ⊎ ((ys : List ModelId) × (b ≡ some ys) × (has ys j ≡ true))
has-join none b l j e h = cc
has-join (some xs) none l j e h = cc
has-join (some xs) (some ys) l j e h = elim (Bool-cases (has xs j)) [
  | inl t ↦ inl (xs, refl, t)
  | inr f ↦ inr (ys, refl, ground (arith, has-append xs ys j))
]

-- everything that the loop lists comes from the recursion on a child
abbrev FromChild :
    (ModelId → Option (List ModelId)) → ModelId → Map ModelId StopArea → ModelId → Type 0
FromChild recur id by j =
    (k : ModelId) × (sa : StopArea) × (xs : List ModelId) × (get by k ≡ some sa)
    × (is_child sa id ≡ true)
    × (recur sa.id ≡ some xs)
    × (has xs j ≡ true)

later_child :
    (recur : ModelId → Option (List ModelId)) (id k : ModelId) (sa : StopArea)
    (rest : Map ModelId StopArea) (j : ModelId)
    → get rest k ≡ none
    → FromChild recur id rest j
    → FromChild recur id ((k, sa) ∷ rest) j
unfolding get
later_child recur id k sa rest j n (i, s, xs, g, c, r, h) = (i, s, xs, ground arith, c, r, h)

family_of-FromChild :
    (recur : ModelId → Option (List ModelId)) (id : ModelId) (by : Map ModelId StopArea)
    (l : List ModelId) (j : ModelId)
    → IsDistinct by
    → family_of recur id by ≡ some l
    → has l j ≡ true
    → FromChild recur id by j
unfolding family_of has
family_of-FromChild recur id [] l j d e h = absurd (ground arith)
family_of-FromChild recur id ((k, sa) ∷ rest) l j d e h = elim (Bool-cases (is_child sa id)) [
  | inr n ↦
      later_child recur id k sa rest j d.0
        (family_of-FromChild recur id rest l j d.1 (ground arith) h)
  | inl c ↦ elim (has-join (recur sa.id) (family_of recur id rest) l j (ground arith) h) [
    | inl (xs, f, t) ↦ (k, sa, xs, unfold get in ground arith, c, f, t)
    | inr (ys, f, t) ↦
        later_child recur id k sa rest j d.0 (family_of-FromChild recur id rest ys j d.1 f t)
  ]
]

one_id : (id j : ModelId) (xs : List ModelId) → some (id ∷ []) ≡ some xs → has xs j ≡ true → j ≡ id
unfolding has
one_id id j xs e h = ground arith

-- In a map with distinct keys, every id in a list that findFamily ends with is the one asked for
-- or stands below it by parents and referents.
pub find_family-Descends :
    (depth : ℕ) (by : Map ModelId StopArea) (id j : ModelId) (l : List ModelId)
    → IsDistinct by
    → find_family depth by id ≡ some l
    → has l j ≡ true
    → Descends by j id
unfolding find_family
find_family-Descends zero by id j l d e h = cc
find_family-Descends (suc depth) by id j l d e h =
    elim (has-join (some (id ∷ [])) (family_of (λ i. find_family depth by i) id by) l j e h) [
      | inl (xs, f, t) ↦ subst (λ i. Descends by j i) (one_id id j xs f t) itself
      | inr (ys, f, t) ↦
          let (k, sa, xs, g, c, r, t') =
            family_of-FromChild (λ i. find_family depth by i) id by ys j d f t in
          below k sa g c (find_family-Descends depth by sa.id j xs d r t')
    ]

has_head : (id : ModelId) → has (id ∷ []) id ≡ true
unfolding has
has_head id = ground arith

join_parts :
    (a b : Option (List ModelId)) (l : List ModelId)
    → join a b ≡ some l
    → (xs : List ModelId) × (ys : List ModelId) × (a ≡ some xs) × (b ≡ some ys) × (l ≡ xs ++ ys)
join_parts none b l e = cc
join_parts (some xs) none l e = cc
join_parts (some xs) (some ys) l e = (xs, ys, refl, refl, ground arith)

family_of-child :
    (recur : ModelId → Option (List ModelId)) (id : ModelId) (by : Map ModelId StopArea)
    (l : List ModelId) (k : ModelId) (sa : StopArea)
    → get by k ≡ some sa
    → is_child sa id ≡ true
    → family_of recur id by ≡ some l
    → (xs : List ModelId) × (recur sa.id ≡ some xs)
      × ((j : ModelId) → has xs j ≡ true → has l j ≡ true)
unfolding family_of get
family_of-child recur id [] l k sa g c e = cc
family_of-child recur id ((i, other) ∷ rest) l k sa g c e = elim (string_dec i k) [
  | yes p ↦
      let q : other ≡ sa = ground arith in
      let (xs, ys, f, _, eq) =
        join_parts (recur other.id) (family_of recur id rest) l (ground arith) in
      (xs, ground arith, λ j h. ground (arith, has-append xs ys j))
  | no n ↦ elim (Bool-cases (is_child other id)) [
    | inr no_child ↦ family_of-child recur id rest l k sa (ground arith) c (ground arith)
    | inl a_child ↦
        let (xs, ys, _, f, eq) =
          join_parts (recur other.id) (family_of recur id rest) l (ground arith) in
        let (zs, r, m) = family_of-child recur id rest ys k sa (ground arith) c f in
        (zs, r, λ j h. ground (arith, m j h, has-append xs ys j))
  ]
]

-- Where findFamily ends with a list, every id that is the one asked for, or that stands below it
-- by parents and referents, is in the list.
pub has-find_family :
    (depth : ℕ) (by : Map ModelId StopArea) (id j : ModelId) (l : List ModelId)
    → Descends by j id
    → find_family depth by id ≡ some l
    → has l j ≡ true
unfolding find_family
has-find_family zero by id j l s e = cc
has-find_family (suc depth) by id j l itself e =
    let (xs, ys, f, _, eq) =
      join_parts (some (id ∷ [])) (family_of (λ i. find_family depth by i) id by) l e in
    ground (arith, has-append xs ys id, has_head id)
has-find_family (suc depth) by id j l (below k sa g c s) e =
    let (xs, ys, _, f, eq) =
      join_parts (some (id ∷ [])) (family_of (λ i. find_family depth by i) id by) l e in
    let (zs, r, m) = family_of-child (λ i. find_family depth by i) id by ys k sa g c f in
    let t = m j (has-find_family depth by sa.id j zs s r) in ground (arith, has-append xs ys j)
