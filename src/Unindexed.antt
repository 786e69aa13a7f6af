-- ===== src/Unindexed.antt =====
-- The managers of model/operator.go and model/situation.go, which have no ObjectIdIndex: the models
-- by their id, and a loop that looks for an identifier. With them, what the transactions of
-- model/transactional_operators.go and model/transactional_situations.go do in front of them.

use ara.Prelude.{Option, none, some, List, [], ◌∷◌, ◌++◌, if◌then◌else◌, string_key}
use ara.GoMap.{Map, get, set, delete}
use ara.ObjectId.{ObjectId}
use ara.ObjectIdIndex.{ModelId}
use ara.Store
use ara.Store.{Entity, Found, found, missing}
use ara.Transaction.{Changes, matches, find_saved, search_saved, unsaved}

module _ {M : Type 0} ⦃e : Entity M⦄ where
  -- Find
  unfoldable pub find : Map ModelId M → ModelId → Option M
  find by id = elim (get by id) [ none ↦ none | some m ↦ some (e.copy m) ]

  -- FindByObjectId
  unfoldable pub find_by_object_id : Map ModelId M → ObjectId → Found M
  find_by_object_id [] o = missing
  find_by_object_id ((_, m) ∷ rest) o =
      let later = find_by_object_id rest o in if matches m o then found (e.copy m) else later

  -- Save, once the model has an id
  unfoldable pub keep : Map ModelId M → M → Map ModelId M
  keep by m = set by (e.model_id m) m

  -- Save
  unfoldable pub save : Map ModelId M → ModelId → M → Map ModelId M × M
  unfolding keep
  save by uuid m = (keep by (Store.identified uuid m), Store.identified uuid m)

  -- Delete
  unfoldable pub remove : Map ModelId M → M → Map ModelId M
  remove by m = delete by (e.model_id m)

  -- Find, FindByObjectId and FindAll of the transaction
  unfoldable pub tx_find : Changes M → Map ModelId M → ModelId → Option M
  tx_find tx by id = find_saved (get tx.saved id) (find by id)

  unfoldable pub tx_find_by_object_id : Changes M → Map ModelId M → ObjectId → Found M
  tx_find_by_object_id tx by o = search_saved tx.saved o (find_by_object_id by o)

  unfoldable pub tx_find_all : Changes M → Map ModelId M → List M
  tx_find_all tx by = Store.copies tx.saved ++ unsaved tx (Store.copies by)
