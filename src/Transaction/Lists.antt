-- ===== src/Transaction/Lists.antt =====
-- FindAll of a transaction.
use ara.Prelude.{
  ℕ, ◌+◌, ◌≡◌, refl, Option, none, some, List, [], ◌∷◌, ◌++◌, if◌then◌else◌, arith, string_key,
}
use ara.GoMap.{Map, get}
use ara.ObjectIdIndex.{ModelId}
use ara.Index.Slots.{count}
use ara.Store
use ara.Store.{Entity, Store, copies}
use ara.Store.Links.{ids_of}
use ara.Transaction.{Changes, find, find_saved, is_saved, unsaved, find_all}
use ara.Transaction.Commit.{IsFiled, AreChanges}

module _ {M : Type 0} ⦃e : Entity M⦄ where
  abbrev pub times : Option M → ℕ
  times none = 0
  times (some m) = 1

  count-copies :
      (by : Map ModelId M) (id : ModelId)
      → IsFiled by
      → count id (ids_of (copies by)) ≡ times (get by id)
  unfolding copies count get
  count-copies [] id f = refl
  count-copies ((k, m) ∷ rest) id f = ground (arith, count-copies rest id f.2, e.model_id-copy m)

  count-unsaved :
      (tx : Changes M) (l : List M) (id : ModelId)
      → count id (ids_of (unsaved tx l)) ≡ (if is_saved tx id then 0 else count id (ids_of l))
  unfolding unsaved count
  count-unsaved tx [] id = ground arith
  count-unsaved tx (m ∷ l) id = ground (arith, count-unsaved tx l id)

  count-join :
      (xs ys : List M) (id : ModelId)
      → count id (ids_of (xs ++ ys)) ≡ count id (ids_of xs) + count id (ids_of ys)
  unfolding count
  count-join [] ys id = ground arith
  count-join (x ∷ xs) ys id = ground (arith, count-join xs ys id)

  -- Where the models of the transaction and of the manager below stand once under their own id,
  -- FindAll of the transaction lists the id of a model once if Find of the transaction finds it,
  -- and otherwise not at all.
  pub count-find_all :
      (tx : Changes M) (parent : Store M) (id : ModelId)
      → AreChanges tx
      → IsFiled parent.by_identifier
      → count id (ids_of (find_all tx parent)) ≡ times (find tx parent id)
  unfolding find_all find find_saved Store.find Store.find_all
  count-find_all tx parent id c f = ground (
    arith,
    count-join (copies tx.saved) (unsaved tx (copies parent.by_identifier)) id,
    count-copies tx.saved id c.saved_lem,
    count-copies parent.by_identifier id f,
    count-unsaved tx (copies parent.by_identifier) id,
  )
