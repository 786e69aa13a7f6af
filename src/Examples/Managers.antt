-- ===== src/Examples/Managers.antt =====
-- The managers and the transactions at concrete inputs.
use ara.Prelude.{◌≡◌, refl, some, List, [], ◌∷◌, string_dec, string_key}
use ara.GoMap.{get, set}
use ara.ObjectId.{object_id_key, object_id_dec}
use ara.ObjectIdIndex
use ara.StopArea.{StopArea, stop_area_entity, copy}
use ara.Store
use ara.Store.{Store, as_instance, find_by_object_id, identified, save, remove, found, missing}
use ara.Store.Answers.{IsSound, IsAnswer, empty-IsSound, save-IsSound}
use ara.Store.Histories.{Call, saves, removes, run, IsKept, find_by_object_id-run}
use ara.Store.Refinement.{find_by_object_id-save}
use ara.Transaction
use ara.Transaction.{Changes, no_changes, find_saved, commit}
use ara.Transaction.Commit.{unless_deleted, find-commit}
use ara.Transaction.Reads.{
  no_changes-AreChanges, save-AreChanges, remove-AreChanges, commit-remove_saved,
  find_by_object_id_blank, IsFoundBlank,
}
use ara.Examples.Samples.{quay, platform, stop, single-AreIdentifiers}

abbrev nothing : Store StopArea
nothing = Store.empty

abbrev one_stop : Store StopArea
one_stop = (save nothing "sa1" (stop "" quay)).0

save-IsSound_example : IsSound one_stop
save-IsSound_example =
    save-IsSound nothing "sa1" (stop "" quay) (single-AreIdentifiers quay) empty-IsSound

one_stop-IsSound : IsSound one_stop
one_stop-IsSound =
    save-IsSound nothing "sa1" (stop "" quay) (single-AreIdentifiers quay) empty-IsSound

-- the stop area gets another identifier, and a stop area of its former one comes and goes
abbrev calls : List (Call StopArea)
calls =
    saves "sa1" (stop "" quay)
    ∷ saves "" (stop "sa1" platform)
    ∷ saves "sa2" (stop "" quay)
    ∷ removes (stop "sa2" quay)
    ∷ []

find_by_object_id-run_example :
    IsAnswer quay (find_by_object_id (run Store.empty calls) quay)
    × IsKept (run Store.empty calls) (find_by_object_id (run Store.empty calls) quay)
find_by_object_id-run_example =
    find_by_object_id-run calls quay (
      single-AreIdentifiers quay,
      (single-AreIdentifiers platform, (single-AreIdentifiers quay, tt)),
    )

find_by_object_id-save_example :
    find_by_object_id (save one_stop "sa2" (stop "" platform)).0 platform
    ≡ found (copy (identified "sa2" (stop "" platform)))
unfolding get string_dec object_id_dec
find_by_object_id-save_example =
    find_by_object_id-save one_stop "sa2" (stop "" platform) platform one_stop-IsSound
      (single-AreIdentifiers platform) refl

indexed : ObjectIdIndex.find one_stop.by_object_id quay ≡ some "sa1"
unfolding ObjectIdIndex.find save get ObjectIdIndex.index ObjectIdIndex.enter string_dec set
    object_id_dec
indexed = refl

-- a transaction that saves one stop area and deletes another
abbrev changes : Changes StopArea
changes =
    Transaction.remove (Transaction.save no_changes "sa2" (stop "" platform)).0 (stop "sa1" quay)

find-commit_example :
    Store.find (commit changes one_stop) "sa1"
    ≡ find_saved
        (get changes.saved "sa1")
        (unless_deleted (get changes.deleted "sa1") (Store.find one_stop "sa1"))
find-commit_example = find-commit changes one_stop "sa1" (
    remove-AreChanges _ (stop "sa1" quay)
      (save-AreChanges no_changes "sa2" (stop "" platform) no_changes-AreChanges))

abbrev one_saved : Changes StopArea
one_saved = record { saved = ("sa1", stop "sa1" quay) ∷ []; deleted = [] }

commit-remove_saved_example :
    Store.find
      (commit
        (Transaction.remove
          (Transaction.save no_changes "sa2" (stop "" platform)).0
          (Transaction.save no_changes "sa2" (stop "" platform)).1)
        one_stop)
      (Transaction.save no_changes "sa2" (stop "" platform)).1.id
    ≡ some (copy (Transaction.save no_changes "sa2" (stop "" platform)).1)
commit-remove_saved_example =
    commit-remove_saved no_changes one_stop "sa2" (stop "" platform) no_changes-AreChanges

find_by_object_id_blank_example :
    IsFoundBlank "external" one_saved.saved
      (Transaction.find_by_object_id one_saved nothing (record { kind = "external"; value = "" }))
unfolding get string_dec
find_by_object_id_blank_example =
    find_by_object_id_blank one_saved nothing "sa1" (stop "sa1" quay) "external" refl refl
