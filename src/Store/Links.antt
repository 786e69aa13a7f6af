-- ===== src/Store/Links.antt =====
-- The managers of package model that also have an Index of model/index.go, such as
-- model/stop_visit.go: the searches that follow it.
use ara.Prelude.{
  ◌≢◌, ℕ, ◌≡◌, refl, Bool, false, Option, none, some, List, [], ◌∷◌, ite, if◌then◌else◌, arith,
  string_dec, string_key, Option-cases, inl, inr,
}
use ara.GoMap.{Map, get, set, delete, get-set, get-delete}
use ara.ObjectIdIndex.{ModelId}
use ara.Index
use ara.Index.{Index, slice}
use ara.Index.Slots.{count}
use ara.Index.Consistency.{
  empty-IsConsistent, IsConsistent, index-IsConsistent, remove-IsConsistent,
}
use ara.Index.History.{by_identifier-index, by_identifier-remove}
use ara.Store.{Entity}

module _ {M : Type 0} ⦃e : Entity M⦄ where
  -- one round of a loop over ids: a copy of the model if it passes the test
  abbrev pub add_copy : (M → Bool) → Option M → Option (List M) → Option (List M)
  add_copy test none rest = none
  add_copy test (some m) none = none
  add_copy test (some m) (some ms) = some (if test m then e.copy m ∷ ms else ms)

  -- copies of the models with these ids that pass the test; none is the panic on a missing model
  unfoldable pub collect : (M → Bool) → Map ModelId M → List ModelId → Option (List M)
  collect test by [] = some []
  collect test by (id ∷ ids) = add_copy test (get by id) (collect test by ids)

  -- the search that follows an index
  unfoldable pub follow : (M → Bool) → Map ModelId M → Index → ModelId → Option (List M)
  unfolding collect
  follow test by ix indexable = collect test by (slice (Index.find ix indexable))

  -- the loop over all models of a manager
  unfoldable pub select_where : (M → Bool) → Map ModelId M → List M
  select_where test [] = []
  select_where test ((_, m) ∷ rest) =
      let ms = select_where test rest in if test m then e.copy m ∷ ms else ms

  abbrev pub IsNamed : Map ModelId M → Type 0
  IsNamed by = (id : ModelId) (m : M) → get by id ≡ some m → e.model_id m ≡ id

  abbrev pub ids_of : List M → List ModelId
  ids_of [] = []
  ids_of (m ∷ ms) = e.model_id m ∷ ids_of ms

  abbrev pub attribute_of : (M → ModelId) → Option M → Option ModelId
  attribute_of extractor none = none
  attribute_of extractor (some m) = some (extractor m)

  -- The index is consistent, and assigns to each id what the extractor gives for the model there.
  pub record IsLinked (extractor : M → ModelId) (by : Map ModelId M) (ix : Index) : Type 0 where
    pub consistent : IsConsistent ix
    pub linked : (id : ModelId) → get ix.by_identifier id ≡ attribute_of extractor (get by id)

  pub empty-IsLinked : (extractor : M → ModelId) → IsLinked extractor [] Index.empty
  unfolding get
  empty-IsLinked extractor = record { consistent = empty-IsConsistent; linked = λ id. refl }

  pub save-IsLinked :
      (extractor : M → ModelId) (by : Map ModelId M) (ix : Index) (m : M)
      → IsLinked extractor by ix
      → IsLinked extractor (set by (e.model_id m) m) (Index.index ix (e.model_id m) (extractor m))
  save-IsLinked extractor by ix m x = record {
    consistent = index-IsConsistent ix (e.model_id m) (extractor m) x.consistent;
    linked = λ id. ground (
      arith,
      by_identifier-index ix (e.model_id m) (extractor m) id,
      get-set by (e.model_id m) m id,
      x.linked id,
    );
  }

  pub remove-IsLinked :
      (extractor : M → ModelId) (by : Map ModelId M) (ix : Index) (id : ModelId)
      → IsLinked extractor by ix
      → IsLinked extractor (delete by id) (Index.remove ix id)
  remove-IsLinked extractor by ix id x = record {
    consistent = remove-IsConsistent ix id x.consistent;
    linked = λ j. ground (arith, by_identifier-remove ix id j, get-delete by id j, x.linked j);
  }

  abbrev pub passes : (M → Bool) → Option M → Bool
  passes test none = false
  passes test (some m) = test m

  collect-count :
      (test : M → Bool) (by : Map ModelId M) (ids : List ModelId) (l : List M) (id : ModelId)
      → IsNamed by
      → collect test by ids ≡ some l
      → count id (ids_of l) ≡ (if passes test (get by id) then count id ids else 0)
  unfolding collect count
  collect-count test by [] l id n h = let q : l ≡ [] = ground arith in ground arith
  collect-count test by (j ∷ ids) l id n h = elim (Option-cases (get by j)) [
    | inl none_kept ↦ cc
    | inr (m, g) ↦ elim (Option-cases (collect test by ids)) [
      | inl stopped ↦ cc
      | inr (ms, q) ↦
          ground (arith, collect-count test by ids ms id n q, n j m g, e.model_id-copy m)
    ]
  ]

  -- every id of the slice has a model
  abbrev AreKept : Map ModelId M → List ModelId → Type 0
  AreKept by [] = Unit
  AreKept by (id ∷ ids) = ((m : M) × (get by id ≡ some m)) × AreKept by ids

  collect_total :
      (test : M → Bool) (by : Map ModelId M) (ids : List ModelId)
      → AreKept by ids
      → (l : List M) × (collect test by ids ≡ some l)
  unfolding collect
  collect_total test by [] k = ([], refl)
  collect_total test by (id ∷ ids) k =
      let (l, h) = collect_total test by ids k.1 in
      let (m, g) = k.0 in (if test m then e.copy m ∷ l else l, rw (g, h))

  counted-AreKept :
      (by : Map ModelId M) (ids : List ModelId)
      → ((id : ModelId) → count id ids ≢ 0 → (m : M) × (get by id ≡ some m))
      → AreKept by ids
  unfolding count
  counted-AreKept by [] h = tt
  counted-AreKept by (id ∷ ids) h =
      (h id (λ e. ground arith), counted-AreKept by ids (λ j c. h j (λ e. ground arith)))

  present :
      (extractor : M → ModelId) (by : Map ModelId M) (ix : Index) (a id : ModelId)
      → IsLinked extractor by ix
      → count id (slice (Index.find ix a)) ≢ 0
      → (m : M) × (get by id ≡ some m)
  unfolding Index.find
  present extractor by ix a id x c = elim (Option-cases (get by id)) [
    | inr found ↦ found
    | inl e ↦ absurd (ground (arith, x.linked id, x.consistent.once a id))
  ]

  pub follow_total :
      (extractor : M → ModelId) (test : M → Bool) (by : Map ModelId M) (ix : Index) (a : ModelId)
      → IsLinked extractor by ix
      → (l : List M) × (follow test by ix a ≡ some l)
  unfolding follow
  follow_total extractor test by ix a x =
      collect_total test by (slice (Index.find ix a))
        (counted-AreKept by (slice (Index.find ix a)) (λ id c. present extractor by ix a id x c))

  -- 1 for the id of a model that has the attribute and passes the test
  abbrev pub listed : (M → ModelId) → (M → Bool) → ModelId → Option M → ℕ
  listed extractor test a none = 0
  listed extractor test a (some m) = if test m then ite (string_dec (extractor m) a) 1 0 else 0

  pub follow_exact :
      (extractor : M → ModelId) (test : M → Bool) (by : Map ModelId M) (ix : Index) (a : ModelId)
      (l : List M) (id : ModelId)
      → IsNamed by
      → IsLinked extractor by ix
      → follow test by ix a ≡ some l
      → count id (ids_of l) ≡ listed extractor test a (get by id)
  unfolding follow Index.find
  follow_exact extractor test by ix a l id n x h = ground (
    arith,
    collect-count test by (slice (Index.find ix a)) l id n h,
    x.consistent.once a id,
    x.linked id,
  )

  -- the answer of a search is a list in which every id counts as often as it should
  abbrev pub Lists : (ModelId → ℕ) → Option (List M) → Type 0
  Lists times answer =
      (l : List M) × (answer ≡ some l) × ((id : ModelId) → count id (ids_of l) ≡ times id)

  pub follow-Lists :
      (extractor : M → ModelId) (test : M → Bool) (by : Map ModelId M) (ix : Index) (a : ModelId)
      → IsNamed by
      → IsLinked extractor by ix
      → Lists (λ id. listed extractor test a (get by id)) (follow test by ix a)
  follow-Lists extractor test by ix a n x =
      let (l, h) = follow_total extractor test by ix a x in
      (l, h, λ id. follow_exact extractor test by ix a l id n x h)
