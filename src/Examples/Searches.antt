-- ===== src/Examples/Searches.antt =====
-- The searches of a transaction at concrete changes.
use ara.Prelude.{◌≡◌, refl, some, List, [], ◌∷◌, if◌then◌else◌, string_dec, string_key, true}
use ara.GoMap.{get}
use ara.Index.Slots.{count}
use ara.StopArea.{StopArea, stop_area_entity, copy}
use ara.StopAreas
use ara.StopAreas.{StopAreas, ascendants_of}
use ara.ObjectIdIndex
use ara.Store.{Store}
use ara.Store.Links.{ids_of}
use ara.Transaction.{Changes}
use ara.Transaction.Commit.{IsFiled, AreChanges}
use ara.TransactionalStopAreas.{is_deleted, find_ascendants}
use ara.TransactionalStopAreas.Deleted.{count-find_ascendants}
use ara.Examples.Samples.{quay, platform, stop, bare}

-- one stop area is saved, another is deleted
abbrev changes : Changes StopArea
changes = record {
  saved = ("sa2", stop "sa2" platform) ∷ [];
  deleted = ("sa1", stop "sa1" quay) ∷ [];
}

changes-AreChanges : AreChanges changes
unfolding get
changes-AreChanges = record { saved_lem = (refl, refl, tt); deleted_lem = (refl, refl, tt) }

abbrev below : Store StopArea
below = record { by_identifier = ("sa1", bare "sa1") ∷ []; by_object_id = ObjectIdIndex.empty }

below-IsFiled : IsFiled below.by_identifier
unfolding get
below-IsFiled = (refl, refl, tt)

abbrev areas : StopAreas
areas = record (StopAreas.empty true) { store = below }

alone : StopAreas.find_ascendants 1 areas.store.by_identifier "sa1" ≡ some (copy (bare "sa1") ∷ [])
unfolding StopAreas.find_ascendants ascendants_of get string_dec
alone = refl

count-find_ascendants_example :
    (kept : List StopArea) × (find_ascendants 1 changes areas "sa1" ≡ some kept)
    × (count "sa1" (ids_of kept)
        ≡ (if is_deleted changes "sa1" then 0 else count "sa1" (ids_of (copy (bare "sa1") ∷ []))))
count-find_ascendants_example =
    count-find_ascendants 1 changes areas "sa1" "sa1" (copy (bare "sa1") ∷ []) changes-AreChanges
      alone
