-- ===== src/Transaction/Commit.antt =====
-- What a commit leaves in the manager below.
use ara.Prelude.{◌≡◌, refl, Option, none, some, [], ◌∷◌, arith, string_key}
use ara.GoMap.{Map, get}
use ara.ObjectIdIndex.{ModelId}
use ara.Store
use ara.Store.{Entity, Store}
use ara.Store.Refinement.{find-keep, find-remove_lem}
use ara.Transaction.{Changes, find, find_saved, remove_all, save_all, commit}

module _ {M : Type 0} ⦃e : Entity M⦄ where
  -- Every model stands under its own id, and no id twice.
  abbrev pub IsFiled : Map ModelId M → Type 0
  IsFiled [] = Unit
  IsFiled ((id, m) ∷ rest) = (e.model_id m ≡ id) × (get rest id ≡ none) × IsFiled rest

  pub record AreChanges (tx : Changes M) : Type 0 where
    pub saved_lem : IsFiled tx.saved
    pub deleted_lem : IsFiled tx.deleted

  find-save_all :
      (parent : Store M) (saved : Map ModelId M) (id : ModelId)
      → IsFiled saved
      → Store.find (save_all parent saved) id ≡ find_saved (get saved id) (Store.find parent id)
  unfolding save_all get find_saved
  find-save_all parent [] id f = refl
  find-save_all parent ((k, m) ∷ rest) id f =
      ground (arith, find-save_all (Store.keep parent m) rest id f.2, find-keep parent m id)

  abbrev pub unless_deleted : Option M → Option M → Option M
  unless_deleted none below = below
  unless_deleted (some m) below = none

  find-remove_all :
      (parent : Store M) (deleted : Map ModelId M) (id : ModelId)
      → IsFiled deleted
      → Store.find (remove_all parent deleted) id
        ≡ unless_deleted (get deleted id) (Store.find parent id)
  unfolding remove_all get
  find-remove_all parent [] id f = refl
  find-remove_all parent ((k, m) ∷ rest) id f =
      ground
        (arith, find-remove_all (Store.remove parent m) rest id f.2, find-remove_lem parent m id)

  -- For a transaction whose saved and deleted models each stand once under their own id, after
  -- Commit an id finds a copy of what the transaction saved under it, else nothing if the
  -- transaction deleted it, else what it found before.
  pub find-commit :
      (tx : Changes M) (parent : Store M) (id : ModelId)
      → AreChanges tx
      → Store.find (commit tx parent) id
        ≡ find_saved (get tx.saved id) (unless_deleted (get tx.deleted id) (Store.find parent id))
  unfolding commit find_saved
  find-commit tx parent id c = ground (
    arith,
    find-save_all (remove_all parent tx.deleted) tx.saved id c.saved_lem,
    find-remove_all parent tx.deleted id c.deleted_lem,
  )

  -- So the transaction reads, at every id that it has not deleted, what a commit would leave.
  pub find-eq-find-commit :
      (tx : Changes M) (parent : Store M) (id : ModelId)
      → AreChanges tx
      → get tx.deleted id ≡ none
      → find tx parent id ≡ Store.find (commit tx parent) id
  unfolding find
  find-eq-find-commit tx parent id c n = ground (arith, find-commit tx parent id c)
