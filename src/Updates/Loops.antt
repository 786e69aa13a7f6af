-- ===== src/Updates/Loops.antt =====
-- updateStopArea of model/update_manager.go on an event whose parent is the stop area itself.
use ara.Prelude.{ℕ, ◌≡◌, refl, true, Option, none, some, List, string_key}
use ara.ObjectIdIndex.{ModelId}
use ara.Store
use ara.Store.{Found, missing, panic}
use ara.StopArea
use ara.StopArea.{StopArea, stop_area_entity}
use ara.StopAreas
use ara.StopAreas.{join, unless_blank, find_ascendants}
use ara.Transaction
use ara.Transaction.{no_changes, commit, save_all, remove_all}
use ara.TransactionalStopAreas
use ara.Model.{MemoryModel}
use ara.UpdateEvents.{StopAreaUpdateEvent}
use ara.Updates.{update_status}

join-none_left : (xs : Option (List StopArea)) → join none xs ≡ none
join-none_left xs = refl

-- The stop area is its own parent, and findAscendants ends at no depth of recursion from it.
abbrev pub IsKnotted : MemoryModel → ModelId → Type 0
IsKnotted model id =
    ((sa : StopArea) × (StopAreas.find model.stop_areas id ≡ some sa) × (sa.parent_id ≡ id))
    × ((depth : ℕ) → find_ascendants depth model.stop_areas.store.by_identifier id ≡ none)

-- updateStopArea is the call of updateStatus on the model after the commit, and does not end
abbrev pub IsEndless : ℕ → StopAreaUpdateEvent → ModelId → Option MemoryModel → Type 0
IsEndless depth event id run =
    (after : MemoryModel) × IsKnotted after id
    × (run
        ≡ update_status depth after
            (record { stop_area_id = id; partner = event.origin; status = true }))
    × (run ≡ none)
