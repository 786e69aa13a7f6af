-- ===== src/TransactionalStopAreas/Deleted.antt =====
-- The searches of model/transactional_stop_areas.go leave out what the transaction has deleted.
use ara.Prelude.{
  ℕ, ◌≡◌, Option-cases, inl, inr, some, List, [], ◌∷◌, if◌then◌else◌, arith, string_key,
}
use ara.GoMap.{Map, get}
use ara.ObjectIdIndex.{ModelId}
use ara.Index.Slots.{count}
use ara.Store.Links.{ids_of}
use ara.StopArea.{StopArea, id-copy, stop_area_entity}
use ara.StopAreas
use ara.StopAreas.{StopAreas}
use ara.Transaction.{Changes}
use ara.Transaction.Commit.{IsFiled, AreChanges}
use ara.TransactionalStopAreas.{is_deleted, current_copy, revise, find_ascendants}

saved-named :
    (saved : Map ModelId StopArea) (id : ModelId) (sa : StopArea)
    → IsFiled saved
    → get saved id ≡ some sa
    → sa.id ≡ id
unfolding get
saved-named [] id sa f g = cc
saved-named ((k, m) ∷ rest) id sa f g = ground (arith, saved-named rest id sa f.2)

id-current_copy :
    (saved : Map ModelId StopArea) (sa : StopArea)
    → IsFiled saved
    → (current_copy (get saved sa.id) sa).id ≡ sa.id
id-current_copy saved sa f = elim (Option-cases (get saved sa.id)) [
  | inl e ↦ rw e
  | inr (m, e) ↦ ground (arith, id-copy m, saved-named saved sa.id m f e)
]

count-revise :
    (tx : Changes StopArea) (l : List StopArea) (id : ModelId)
    → AreChanges tx
    → count id (ids_of (revise tx l)) ≡ (if is_deleted tx id then 0 else count id (ids_of l))
unfolding revise count
count-revise tx [] id c = ground arith
count-revise tx (sa ∷ l) id c =
    ground (arith, count-revise tx l id c, id-current_copy tx.saved sa c.saved_lem)

-- Where the models of the transaction stand once under their own id, and findAscendants of the
-- manager below ends with a list, FindAscendants of the transaction ends, and lists an id as often
-- as that list does, or not at all if the transaction has deleted it.
pub count-find_ascendants :
    (depth : ℕ) (tx : Changes StopArea) (parent : StopAreas) (id j : ModelId) (l : List StopArea)
    → AreChanges tx
    → StopAreas.find_ascendants depth parent.store.by_identifier id ≡ some l
    → (kept : List StopArea) × (find_ascendants depth tx parent id ≡ some kept)
      × (count j (ids_of kept) ≡ (if is_deleted tx j then 0 else count j (ids_of l)))
unfolding find_ascendants
count-find_ascendants depth tx parent id j l c e = (revise tx l, rw e, count-revise tx l j c)
