-- ===== src/Transaction.antt =====
-- model/transactional_stop_areas.go and the like of it for lines, stop visits, vehicle journeys and
-- vehicles; model/transaction.go: changes that are kept apart until they are committed.
-- The parent is the manager of the model below, which other calls may change in the meantime: it
-- is an argument of each operation. Find copies a saved model: lines, vehicle journeys and vehicles
-- are handed out by value without a copy, which has the same entries in its maps.
pub mod Commit
pub mod Reads
pub mod Lists
use ara.Prelude.{
  String, Bool, true, false, Option, none, some, List, [], ◌∷◌, ◌++◌, ite, if◌then◌else◌,
  string_dec, string_key,
}
use ara.GoMap.{Map, get, set}
use ara.ObjectId.{ObjectId, ObjectIds}
use ara.ObjectIdIndex.{ModelId}
use ara.Store
use ara.Store.{Entity, Store, Found, found}

pub record Changes (M : Type 0) : Type 0 where
  pub saved : Map ModelId M
  pub deleted : Map ModelId M

-- NewTransactionalStopAreas, resetCaches
abbrev pub no_changes : {M : Type 0} → Changes M
no_changes = record { saved = []; deleted = [] }

abbrev pub value_or_blank : Option ObjectId → String
value_or_blank none = ""
value_or_blank (some o) = o.value

module _ {M : Type 0} ⦃e : Entity M⦄ where
  unfoldable pub find_saved : Option M → Option M → Option M
  find_saved none below = below
  find_saved (some m) below = some (e.copy m)

  -- Find
  unfoldable pub find : Changes M → Store M → ModelId → Option M
  unfolding find_saved
  find tx parent id = find_saved (get tx.saved id) (Store.find parent id)

  -- the test of FindByObjectId: a missing identifier has the empty value
  abbrev pub matches : M → ObjectId → Bool
  matches m o = ite (string_dec (value_or_blank (get (e.object_ids m) o.kind)) o.value) true false

  unfoldable pub search_saved : Map ModelId M → ObjectId → Found M → Found M
  search_saved [] o below = below
  search_saved ((_, m) ∷ rest) o below =
      let later = search_saved rest o below in if matches m o then found (e.copy m) else later

  -- FindByObjectId
  unfoldable pub find_by_object_id : Changes M → Store M → ObjectId → Found M
  unfolding search_saved
  find_by_object_id tx parent o = search_saved tx.saved o (Store.find_by_object_id parent o)

  abbrev pub is_saved : Changes M → ModelId → Bool
  is_saved tx id = elim (get tx.saved id) [ none ↦ false | some m ↦ true ]

  -- the second loop of FindAll
  unfoldable pub unsaved : Changes M → List M → List M
  unsaved tx [] = []
  unsaved tx (m ∷ ms) =
      let rest = unsaved tx ms in if is_saved tx (e.model_id m) then rest else m ∷ rest

  -- FindAll
  unfoldable pub find_all : Changes M → Store M → List M
  unfolding unsaved
  find_all tx parent = Store.copies tx.saved ++ unsaved tx (Store.find_all parent)

  -- Save
  unfoldable pub save : Changes M → ModelId → M → Changes M × M
  save tx uuid m =
      let m' = Store.identified uuid m in
      (record tx { saved = set tx.saved (e.model_id m') m' }, m')

  -- Delete
  unfoldable pub remove : Changes M → M → Changes M
  remove tx m = record tx { deleted = set tx.deleted (e.model_id m) m }

  -- the two loops of Commit
  unfoldable pub remove_all : Store M → Map ModelId M → Store M
  remove_all parent [] = parent
  remove_all parent ((_, m) ∷ rest) = remove_all (Store.remove parent m) rest

  unfoldable pub save_all : Store M → Map ModelId M → Store M
  save_all parent [] = parent
  save_all parent ((_, m) ∷ rest) = save_all (Store.keep parent m) rest

  -- Commit; the models saved have an id by now, so the manager gives them no new one
  unfoldable pub commit : Changes M → Store M → Store M
  unfolding remove_all save_all
  commit tx parent = save_all (remove_all parent tx.deleted) tx.saved

-- Rollback
abbrev pub rollback : {M : Type 0} → Changes M → Changes M
rollback tx = no_changes

-- model/transaction.go
pub data Status : Type 0 where
  pending committed rolled_back : Status

pub record Transaction (M : Type 0) : Type 0 where
  pub changes : Changes M
  pub status : Status

-- NewTransaction
abbrev pub begin : {M : Type 0} → Transaction M
begin = record { changes = no_changes; status = pending }

module _ {M : Type 0} ⦃e : Entity M⦄ where
  -- Transaction.Commit
  unfoldable pub commit_transaction : Transaction M → Store M → Transaction M × Store M
  commit_transaction t parent = (record t { status = committed }, commit t.changes parent)

-- Transaction.Close
unfoldable pub close : {M : Type 0} → Transaction M → Transaction M
close t = elim t.status [
  | committed ↦ t
  | _ ↦ record { changes = rollback t.changes; status = rolled_back }
]
