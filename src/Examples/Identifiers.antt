-- ===== src/Examples/Identifiers.antt =====
-- The index by identifiers at concrete inputs.
use ara.Prelude.{
  String, ◌≡◌, ◌≢◌, refl, true, none, some, List, [], ◌∷◌, string_dec, string_key, differ,
}
use ara.GoMap.{get, set, delete}
use ara.ObjectId.{object_id_key, object_id_dec}
use ara.ObjectIdIndex
use ara.ObjectIdIndex.{ModelId, empty, find, remove_known, unindex, enter, record_all}
use ara.ObjectIdIndex.Effect.{recorded, []-AreIdentifiers}
use ara.ObjectIdIndex.Refinement.{IsFair, empty-IsExact}
use ara.ObjectIdIndex.History.{
  Call, call, indexes, removes, run, contracts, run_refines, find-recorded, find_lost,
}
use ara.StopArea.{StopArea, stop_area_entity}
use ara.Store.{as_instance}
use ara.Examples.Samples.{quay, stop, bare, single-AreIdentifiers}

abbrev named : List (String × String)
named = ("internal", "quay-1") ∷ ("external", "q1") ∷ []

abbrev saved_then_deleted : List (Call StopArea)
saved_then_deleted = indexes (stop "sa1" quay) ∷ removes "sa1" ∷ []

first-IsFair : IsFair empty (stop "sa1" quay)
unfolding get find
first-IsFair = record {
  identifiers_lem = single-AreIdentifiers quay;
  keeps_kinds = λ kind n. refl;
  unclaimed = λ o id c f. cc;
}

run_refines_example :
    find (run empty saved_then_deleted) quay ≡ contracts (find empty) saved_then_deleted quay
run_refines_example =
    run_refines empty saved_then_deleted quay empty-IsExact (first-IsFair, (tt, tt))

-- both sides are none
deleted_test : find (run empty saved_then_deleted) quay ≡ none
unfolding find run string_dec object_id_dec get call ObjectIdIndex.index ObjectIdIndex.remove
    remove_known unindex enter record_all set delete
deleted_test = refl

abbrev saved : List (Call StopArea)
saved = indexes (stop "sa1" quay) ∷ []

saved_test : find (run empty saved) quay ≡ some "sa1"
unfolding find run string_dec object_id_dec get call ObjectIdIndex.index ObjectIdIndex.remove
    remove_known unindex enter record_all set delete
saved_test = refl

find-recorded_example : recorded (run empty saved) "sa1" quay ≡ true
find-recorded_example = find-recorded saved quay "sa1" (single-AreIdentifiers quay, tt) saved_test

other_id : ◌≢◌ {A = String} "sa2" "sa1"
unfolding string_dec
other_id = differ "sa2" "sa1" refl

find_lost_example :
    (find
        (run empty
          (indexes (stop "sa1" quay) ∷ indexes (bare "sa1") ∷ indexes (stop "sa2" quay) ∷ []))
        quay
      ≡ some "sa2")
    × (find
          (run empty (
            indexes (stop "sa1" quay)
            ∷ indexes (bare "sa1")
            ∷ indexes (stop "sa2" quay)
            ∷ removes "sa1"
            ∷ []))
          quay
        ≡ none)
unfolding get string_dec object_id_dec
find_lost_example =
    find_lost empty (stop "sa1" quay) (bare "sa1") (stop "sa2" quay) quay
      empty-IsExact.is_owned.well_formed (single-AreIdentifiers quay) []-AreIdentifiers
      (single-AreIdentifiers quay) refl other_id refl refl refl
