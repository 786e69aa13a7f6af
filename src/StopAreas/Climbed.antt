-- ===== src/StopAreas/Climbed.antt =====
-- What findAscendants of model/stop_area.go lists: copies of stop areas that are kept.
use ara.Prelude.{
  subst, ℕ, zero, suc, ◌≡◌, refl, Option, none, some, List, [], ◌∷◌, ◌++◌, ite, arith, string_dec,
  string_key, Option-cases, inl, inr,
}
use ara.GoMap.{Map, get}
use ara.ObjectIdIndex.{ModelId}
use ara.Store.Links.{IsNamed}
use ara.StopArea.{StopArea, copy, id-copy, stop_area_entity}
use ara.StopAreas.{join, unless_blank, ascendants_of, find_ascendants}

-- The stop area is a copy of the one that is kept under its id.
abbrev pub IsKept : Map ModelId StopArea → StopArea → Type 0
IsKept by sa = (m : StopArea) × (get by sa.id ≡ some m) × (sa ≡ copy m)

abbrev pub AreKept : Map ModelId StopArea → List StopArea → Type 0
AreKept by [] = Unit
AreKept by (sa ∷ sas) = IsKept by sa × AreKept by sas

append-AreKept :
    (by : Map ModelId StopArea) (xs ys : List StopArea)
    → AreKept by xs
    → AreKept by ys
    → AreKept by (xs ++ ys)
append-AreKept by [] ys h k = k
append-AreKept by (x ∷ xs) ys h k = (h.0, append-AreKept by xs ys h.1 k)

-- where it ends, the list is of kept stop areas
abbrev OfKept : Map ModelId StopArea → Option (List StopArea) → Type 0
OfKept by none = Unit
OfKept by (some l) = AreKept by l

join-OfKept :
    (by : Map ModelId StopArea) (a b : Option (List StopArea))
    → OfKept by a
    → OfKept by b
    → OfKept by (join a b)
join-OfKept by none b h k = tt
join-OfKept by (some xs) none h k = tt
join-OfKept by (some xs) (some ys) h k = append-AreKept by xs ys h k

unless_blank-OfKept :
    (by : Map ModelId StopArea) (id : ModelId) (rest : Option (List StopArea))
    → OfKept by rest
    → OfKept by (unless_blank id rest)
unless_blank-OfKept by id rest h =
    elim (string_dec id "") as (λ d. OfKept by (ite d (some []) rest)) [ yes _ ↦ tt | no _ ↦ h ]

kept_copy :
    (by : Map ModelId StopArea) (id : ModelId) (sa : StopArea)
    → get by id ≡ some sa
    → sa.id ≡ id
    → get by (copy sa).id ≡ some sa
kept_copy by id sa e n = ground (arith, id-copy sa)

find_ascendants-OfKept :
    (depth : ℕ) (by : Map ModelId StopArea) (id : ModelId)
    → IsNamed by
    → OfKept by (find_ascendants depth by id)
unfolding find_ascendants
find_ascendants-OfKept zero by id n = tt
find_ascendants-OfKept (suc depth) by id n = elim (Option-cases (get by id)) [
  | inl e ↦ rw (e, ascendants_of) tt
  | inr (sa, e) ↦
      rw (e, ascendants_of)
        (join-OfKept by (some (copy sa ∷ [])) _ ((sa, kept_copy by id sa e (n id sa e), refl), tt)
          (join-OfKept by _ _
            (unless_blank-OfKept by sa.parent_id _ (find_ascendants-OfKept depth by sa.parent_id n))
            (unless_blank-OfKept by sa.referent_id _
              (find_ascendants-OfKept depth by sa.referent_id n))))
]

pub find_ascendants-AreKept :
    (depth : ℕ) (by : Map ModelId StopArea) (id : ModelId) (l : List StopArea)
    → IsNamed by
    → find_ascendants depth by id ≡ some l
    → AreKept by l
find_ascendants-AreKept depth by id l n e =
    subst (OfKept by) e (find_ascendants-OfKept depth by id n)
