-- ===== src/Transaction/Reads.antt =====
-- What a transaction reads of its own changes, and the cases where that is not what it wrote.
use ara.Prelude.{
  ◌⊎◌, inl, inr, String, ◌≡◌, refl, none, some, [], ◌∷◌, ite, arith, string_dec, string_key, ◌∙◌,
}
use ara.GoMap.{Map, get, set, delete, get-set, get-delete}
use ara.ObjectIdIndex.{ModelId}
use ara.ObjectIdIndex.Effect.{AreIdentifiers}
use ara.Store
use ara.Store.{Entity, Store, Found, found}
use ara.Store.Answers.{IsSound, keep-IsSound, remove-IsSound}
use ara.Transaction.{
  value_or_blank, Changes, no_changes, find, find_saved, find_by_object_id, search_saved, save,
  remove, remove_all, save_all, commit, rollback,
}
use ara.Transaction.Commit.{IsFiled, AreChanges, find-commit}

module _ {M : Type 0} ⦃e : Entity M⦄ where
  get-delete-none :
      (by : Map ModelId M) (k id : ModelId) → get by id ≡ none → get (delete by k) id ≡ none
  get-delete-none by k id n = ground (arith, get-delete by k id)

  delete-IsFiled : (by : Map ModelId M) (k : ModelId) → IsFiled by → IsFiled (delete by k)
  unfolding delete
  delete-IsFiled [] k f = tt
  delete-IsFiled ((id, m) ∷ rest) k f =
      ground (arith, delete-IsFiled rest k f.2, get-delete-none rest k id)

  set-IsFiled : (by : Map ModelId M) (m : M) → IsFiled by → IsFiled (set by (e.model_id m) m)
  unfolding set
  set-IsFiled by m f = (
    refl,
    ground (arith, get-delete by (e.model_id m) (e.model_id m)),
    delete-IsFiled by (e.model_id m) f,
  )

  pub no_changes-AreChanges : AreChanges {M = M} no_changes
  no_changes-AreChanges = record { saved_lem = tt; deleted_lem = tt }

  pub save-AreChanges :
      (tx : Changes M) (uuid : ModelId) (m : M) → AreChanges tx → AreChanges (save tx uuid m).0
  unfolding save
  save-AreChanges tx uuid m c = record {
    saved_lem = set-IsFiled tx.saved (Store.identified uuid m) c.saved_lem;
    deleted_lem = c.deleted_lem;
  }

  pub remove-AreChanges : (tx : Changes M) (m : M) → AreChanges tx → AreChanges (remove tx m)
  unfolding remove
  remove-AreChanges tx m c = record {
    saved_lem = c.saved_lem;
    deleted_lem = set-IsFiled tx.deleted m c.deleted_lem;
  }

  -- A transaction finds what it saved, whatever the manager below holds.
  pub find-save :
      (tx : Changes M) (parent : Store M) (uuid : ModelId) (m : M) (id : ModelId)
      → find (save tx uuid m).0 parent id
        ≡ ite
            (string_dec (e.model_id (Store.identified uuid m)) id)
            (some (e.copy (Store.identified uuid m)))
            (find tx parent id)
  unfolding find save find_saved
  find-save tx parent uuid m id =
      ground (
        arith,
        get-set tx.saved (e.model_id (Store.identified uuid m)) (Store.identified uuid m) id,
      )

  -- A deletion is not visible inside the transaction: every read is as before it.
  pub find-remove :
      (tx : Changes M) (parent : Store M) (m : M) (id : ModelId)
      → find (remove tx m) parent id ≡ find tx parent id
  unfolding find remove
  find-remove tx parent m id = refl

  -- A model that a transaction has saved and then deletes is in the manager after Commit, where
  -- the models of the transaction stand once under their own id.
  pub commit-remove_saved :
      (tx : Changes M) (parent : Store M) (uuid : ModelId) (m : M)
      → AreChanges tx
      → Store.find
          (commit (remove (save tx uuid m).0 (save tx uuid m).1) parent)
          (e.model_id (save tx uuid m).1)
        ≡ some (e.copy (save tx uuid m).1)
  unfolding save remove find_saved
  commit-remove_saved tx parent uuid m c =
      let m' = Store.identified uuid m in
      find-commit (remove (save tx uuid m).0 m') parent (e.model_id m')
        (remove-AreChanges _ m' (save-AreChanges tx uuid m c))
      ∙ ground (arith, get-set tx.saved (e.model_id m') m' (e.model_id m'))

  -- After Rollback a commit changes nothing.
  pub commit-rollback : (tx : Changes M) (parent : Store M) → commit (rollback tx) parent ≡ parent
  unfolding commit remove_all save_all
  commit-rollback tx parent = refl

  -- the model stands in the map
  abbrev pub IsAmong : M → Map ModelId M → Type 0
  IsAmong n [] = ⊥
  IsAmong n ((_, m) ∷ rest) = (n ≡ m) ⊎ IsAmong n rest

  -- a saved model that has no identifier of the kind, or a blank one, is found by the blank value
  abbrev pub IsFoundBlank : String → Map ModelId M → Found M → Type 0
  IsFoundBlank kind saved answer =
      (n : M) × IsAmong n saved
      × (value_or_blank (get (e.object_ids n) kind) ≡ "")
      × (answer ≡ found (e.copy n))

  search_blank :
      (saved : Map ModelId M) (below : Found M) (id : ModelId) (m : M) (kind : String)
      → get saved id ≡ some m
      → get (e.object_ids m) kind ≡ none
      → IsFoundBlank kind saved (search_saved saved (record { kind = kind; value = "" }) below)
  unfolding search_saved get
  search_blank [] below id m kind h lacks = absurd (ground arith)
  search_blank ((j, x) ∷ rest) below id m kind h lacks =
      elim (string_dec (value_or_blank (get (e.object_ids x) kind)) "") [
        | yes p ↦ (x, inl refl, p, ground arith)
        | no n ↦
            let (y, among, blank, answer) =
              search_blank rest below id m kind (ground arith) lacks in
            (y, inr among, blank, ground arith)
      ]

  -- Where one of the models that a transaction has saved has no identifier of some kind,
  -- FindByObjectId with that kind and the empty value finds a saved model whose identifier of the
  -- kind is missing or blank, whatever the manager below holds.
  pub find_by_object_id_blank :
      (tx : Changes M) (parent : Store M) (id : ModelId) (m : M) (kind : String)
      → get tx.saved id ≡ some m
      → get (e.object_ids m) kind ≡ none
      → IsFoundBlank kind tx.saved
          (find_by_object_id tx parent (record { kind = kind; value = "" }))
  unfolding find_by_object_id
  find_by_object_id_blank tx parent id m kind h lacks =
      search_blank tx.saved (Store.find_by_object_id parent (record { kind = kind; value = "" })) id
        m kind h lacks

  -- every model of the map has identifiers as the code builds them
  abbrev pub HaveIdentifiers : Map ModelId M → Type 0
  HaveIdentifiers [] = Unit
  HaveIdentifiers ((_, m) ∷ rest) = AreIdentifiers (e.object_ids m) × HaveIdentifiers rest

  save_all-IsSound :
      (parent : Store M) (saved : Map ModelId M)
      → HaveIdentifiers saved
      → IsSound parent
      → IsSound (save_all parent saved)
  unfolding save_all
  save_all-IsSound parent [] h x = x
  save_all-IsSound parent ((_, m) ∷ rest) h x =
      save_all-IsSound (Store.keep parent m) rest h.1 (keep-IsSound parent m h.0 x)

  remove_all-IsSound :
      (parent : Store M) (deleted : Map ModelId M)
      → IsSound parent
      → IsSound (remove_all parent deleted)
  unfolding remove_all
  remove_all-IsSound parent [] x = x
  remove_all-IsSound parent ((_, m) ∷ rest) x =
      remove_all-IsSound (Store.remove parent m) rest (remove-IsSound parent m x)

  -- Commit keeps a sound manager sound, where the saved models of the transaction have identifiers
  -- as the code builds them.
  pub commit-IsSound :
      (tx : Changes M) (parent : Store M)
      → HaveIdentifiers tx.saved
      → IsSound parent
      → IsSound (commit tx parent)
  unfolding commit
  commit-IsSound tx parent h x =
      save_all-IsSound (remove_all parent tx.deleted) tx.saved h
        (remove_all-IsSound parent tx.deleted x)
