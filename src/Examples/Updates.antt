-- ===== src/Examples/Updates.antt =====
-- The update handlers at concrete events.
use ara.Prelude.{
  String, ◌≡◌, ◌≢◌, refl, some, none, [], ◌∷◌, string_dec, string_key, true, false, differ,
}
use ara.GoMap.{get, set, delete}
use ara.GoMap.Keys.{has}
use ara.ObjectId.{new, object_id_key, object_id_dec}
use ara.ObjectIdIndex
use ara.ObjectIdIndex.{ModelId}
use ara.StopArea.{copy, stop_area_entity}
use ara.StopAreas
use ara.Store
use ara.Store.{found, as_instance, identified}
use ara.Store.Links.{ids_of}
use ara.Line
use ara.Line.{Line, line_entity}
use ara.VehicleJourneys
use ara.VehicleJourneys.{line}
use ara.Model.{MemoryModel}
use ara.UpdateEvents.{
  LineUpdateEvent, StopAreaUpdateEvent, StopVisitUpdateEvent, StatusUpdateEvent, stop_visit_event,
}
use ara.TransactionalModel
use ara.Updates.{find_stop_area, find_line, find_vehicle_journey, update_status}
use ara.Updates.Dispatch.{update}
use ara.Updates.Journeys.{update_line}
use ara.Updates.Visits.{update_stop_visit, with_line_id}
use ara.Updates.Soundness.{IsRun}
use ara.Updates.Runs.{update-IsRun}
use ara.Updates.Reported.{IsOutcome, find-update_status}
use ara.Updates.Lost.{find-update_stop_visit}
use ara.Updates.Stored.{find_line-update_line, line_of}
use ara.TransactionalModel.{commit_model}
use ara.Examples.Samples.{quay, stop}
use ara.Examples.Fleet.{
  loaded, loaded_areas, loaded-IsSoundModel, loaded-EndsWithin, tram, journey, a_line, a_journey,
}

abbrev unhashed : String → String
unhashed s = s

abbrev passage : StopVisitUpdateEvent
passage = record {
  origin = "partner1";
  object_id = new "internal" "passage-1";
  stop_area_object_id = quay;
  vehicle_journey_object_id = journey;
  data_frame_ref = "";
  passage_order = 1;
  monitored = true;
  vehicle_at_stop = false;
  schedules = [];
  departure_status = "";
  arrival_status = "";
  recorded_at = 5;
  object_id_kind = "internal";
  siri_xml = none;
}

update-IsRun_example : IsRun (update unhashed 1 "sv1" 5 6 loaded (stop_visit_event passage))
update-IsRun_example =
    update-IsRun unhashed 1 "sv1" 5 6 loaded (stop_visit_event passage) loaded-IsSoundModel
      loaded-EndsWithin tt

known_stop : find_stop_area loaded quay ≡ found (stop "sa1" quay)
unfolding get set delete string_dec object_id_dec ara.Transaction.find_by_object_id
    Store.find_by_object_id ObjectIdIndex.find commit_model TransactionalModel.commit_stop_areas
    TransactionalModel.commit_to TransactionalModel.each StopAreas.keep Store.keep
    ObjectIdIndex.index ObjectIdIndex.enter copy ara.Origins.copy ara.Attributes.copy
    ara.References.copy ara.GoMap.Loops.fill
known_stop = refl

known_journey : find_vehicle_journey loaded journey ≡ found a_journey
unfolding get set delete string_dec object_id_dec ara.Transaction.find_by_object_id
    Store.find_by_object_id ObjectIdIndex.find commit_model
    TransactionalModel.commit_vehicle_journeys TransactionalModel.commit_to TransactionalModel.each
    VehicleJourneys.keep Store.keep ObjectIdIndex.index ObjectIdIndex.enter VehicleJourneys.copy
    ara.Attributes.copy ara.References.copy ara.GoMap.Loops.fill
known_journey = refl

known_line : line (some loaded.lines) a_journey ≡ some a_line
unfolding line get set delete string_dec object_id_dec Store.find commit_model
    ara.Transaction.commit Store.keep Line.copy ara.Attributes.copy ara.References.copy
    ara.GoMap.Loops.fill
known_line = refl

find-update_stop_visit_example :
    (after : MemoryModel) × (update_stop_visit unhashed 1 "sv1" 5 6 loaded passage ≡ some after)
    × (StopAreas.find after.stop_areas "sa1"
        ≡ some (copy (with_line_id unhashed a_line (stop "sa1" quay))))
find-update_stop_visit_example =
    find-update_stop_visit unhashed 1 "sv1" 5 6 loaded passage (stop "sa1" quay) a_journey a_line
      loaded-IsSoundModel loaded-EndsWithin known_stop known_journey known_line

abbrev alarm : StatusUpdateEvent
alarm = record { stop_area_id = "sa1"; partner = "partner1"; status = false }

above :
    StopAreas.find_ascendants 1 loaded.stop_areas.store.by_identifier "sa1"
    ≡ some (copy (stop "sa1" quay) ∷ [])
unfolding StopAreas.find_ascendants StopAreas.ascendants_of get string_dec
above = rw loaded_areas refl

find-update_status_example :
    (after : MemoryModel) × (update_status 1 loaded alarm ≡ some after)
    × ((j : ModelId)
        → IsOutcome "partner1" false
            (has (ids_of (copy (stop "sa1" quay) ∷ [])) j)
            (StopAreas.find loaded.stop_areas j)
            (StopAreas.find after.stop_areas j))
find-update_status_example =
    find-update_status 1 loaded alarm (copy (stop "sa1" quay) ∷ [])
      loaded-IsSoundModel.stop_areas.sound.named above

abbrev renamed : LineUpdateEvent
renamed = record { origin = "partner1"; object_id = tram; name = "Tram 3" }

not_default : ◌≢◌ {A = String} "internal" "_default"
unfolding string_dec
not_default = differ "internal" "_default" refl

find_line-update_line_example :
    (after : MemoryModel) × (update_line unhashed "l2" 5 loaded renamed ≡ some after)
    × (find_line after tram
        ≡ found (
            Line.copy (
              identified "l2" (Line.updated (line_of unhashed renamed (find_line loaded tram)) 5))))
find_line-update_line_example =
    find_line-update_line unhashed "l2" 5 loaded renamed loaded-IsSoundModel not_default

abbrev circular : StopAreaUpdateEvent
circular = record {
  origin = "partner1";
  object_id = quay;
  parent_object_id = quay;
  name = "Quay";
  collected_always = true;
  longitude = 0;
  latitude = 0;
}
