-- ===== src/Index/Slots.antt =====
-- The slices of model/index.go: how often an id stands in one, before and after a change.
use ara.Prelude.{
  ℕ, ◌+◌, ◌-◌, ◌≡◌, refl, false, some, List, [], ◌∷◌, ◌++◌, ite, arith, string_dec, string_key, ◌≢◌,
  Bool-cases, inl, inr,
}
use ara.GoMap.{Map, get, get-set, get-delete, set}
use ara.Index.{ModelId, slice, without, contains, put_back, remove_from_indexable}

unfoldable pub count : ModelId → List ModelId → ℕ
count id [] = 0
count id (j ∷ ids) = ite (string_dec j id) (count id ids + 1) (count id ids)

pub count-append :
    (id : ModelId) (xs : List ModelId) (j : ModelId)
    → count id (xs ++ j ∷ []) ≡ ite (string_dec j id) (count id xs + 1) (count id xs)
unfolding count
count-append id [] j = refl
count-append id (x ∷ xs) j = ground (arith, count-append id xs j)

pub contains-count : (id : ModelId) (xs : List ModelId) → contains id xs ≡ false → count id xs ≡ 0
unfolding contains count
contains-count id [] h = refl
contains-count id (x ∷ xs) h = ground (arith, contains-count id xs)

pub count-without :
    (id j : ModelId) (xs : List ModelId)
    → count j (without id xs) ≡ ite (string_dec id j) (count j xs - 1) (count j xs)
unfolding without count
count-without id j [] = ground arith
count-without id j (x ∷ xs) = ground (arith, count-without id j xs)

-- how often an id stands at a key of the map
abbrev pub occurrences : Map ModelId (List ModelId) → ModelId → ModelId → ℕ
occurrences by indexable id = count id (slice (get by indexable))

-- No key has an empty slice.
abbrev pub IsTight : Map ModelId (List ModelId) → Type 0
IsTight by = (indexable : ModelId) → get by indexable ≢ some []

slice-put_back :
    (by : Map ModelId (List ModelId)) (indexable : ModelId) (ids : List ModelId) (k : ModelId)
    → slice (get (put_back by indexable ids) k)
      ≡ ite (string_dec indexable k) ids (slice (get by k))
unfolding put_back
slice-put_back by indexable [] k = ground (arith, get-delete by indexable k)
slice-put_back by indexable (i ∷ ids) k = ground (arith, get-set by indexable (i ∷ ids) k)

put_back-IsTight :
    (by : Map ModelId (List ModelId)) (indexable : ModelId) (ids : List ModelId)
    → IsTight by
    → IsTight (put_back by indexable ids)
unfolding put_back
put_back-IsTight by indexable [] t k = ground (arith, get-delete by indexable k, t k)
put_back-IsTight by indexable (i ∷ ids) t k = ground (arith, get-set by indexable (i ∷ ids) k, t k)

-- removeFromIndexable takes one occurrence of the id away, at that key.
pub occurrences-remove_from_indexable :
    (by : Map ModelId (List ModelId)) (indexable id k j : ModelId)
    → occurrences (remove_from_indexable by indexable id) k j
      ≡ ite
          (string_dec indexable k)
          (ite (string_dec id j) (occurrences by k j - 1) (occurrences by k j))
          (occurrences by k j)
unfolding remove_from_indexable
occurrences-remove_from_indexable by indexable id k j = ground (
  arith,
  slice-put_back by indexable (without id (slice (get by indexable))) k,
  count-without id j (slice (get by indexable)),
  contains-count id (slice (get by indexable)),
)

pub remove_from_indexable-IsTight :
    (by : Map ModelId (List ModelId)) (indexable id : ModelId)
    → IsTight by
    → IsTight (remove_from_indexable by indexable id)
unfolding remove_from_indexable
remove_from_indexable-IsTight by indexable id t =
    elim (Bool-cases (contains id (slice (get by indexable)))) [
      | inl e ↦ rw e (put_back-IsTight by indexable _ t)
      | inr e ↦ rw e t
    ]

append-ne-[] : (xs : List ModelId) (id : ModelId) → (xs ++ id ∷ []) ≢ []
append-ne-[] [] id = λ e. cc
append-ne-[] (x ∷ xs) id = λ e. cc

pub set-IsTight :
    (by : Map ModelId (List ModelId)) (indexable id : ModelId)
    → IsTight by
    → IsTight (set by indexable (slice (get by indexable) ++ id ∷ []))
set-IsTight by indexable id t k e = ground (
  arith,
  get-set by indexable (slice (get by indexable) ++ id ∷ []) k,
  t k,
  append-ne-[] (slice (get by indexable)) id,
)
