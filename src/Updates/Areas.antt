-- ===== src/Updates/Areas.antt =====
-- updateStopArea of model/update_manager.go.
use ara.Prelude.{ℕ, Bool, true, not, ◌&&◌, Option, some, [], if◌then◌else◌, string_key}
use ara.GoMap.{get}
use ara.ObjectId.{set_object_id}
use ara.ObjectIdIndex.{ModelId}
use ara.Schedules.{Time}
use ara.Origins.{or_false}
use ara.References.{is_blank}
use ara.StopArea
use ara.StopArea.{StopArea, stop_area_entity, set_partner_status}
use ara.StopVisit.{stop_visit_entity}
use ara.VehicleJourneys.{vehicle_journey_entity}
use ara.Line.{line_entity}
use ara.Vehicles.{vehicle_entity}
use ara.Transaction
use ara.Transaction.{Changes, no_changes}
use ara.Model.{MemoryModel}
use ara.TransactionalModel.{begin, commit_model}
use ara.UpdateEvents.{StopAreaUpdateEvent}
use ara.Updates.{on_found, bind, find_stop_area, update_status}

-- the stop area that updateStopArea makes
abbrev pub created_stop_area : StopAreaUpdateEvent → StopArea
created_stop_area event = record StopArea.new {
  object_ids = set_object_id [] event.object_id;
  collect_general_messages = true;
  name = event.name;
  collected_always = event.collected_always;
  longitude = event.longitude;
  latitude = event.latitude;
}

abbrev pub lacks_parent : StopAreaUpdateEvent → StopArea → Bool
lacks_parent event sa = is_blank sa.parent_id && not (is_blank event.parent_object_id.value)

-- the id of an unknown parent is that of an empty stop area
unfoldable pub with_parent : MemoryModel → StopAreaUpdateEvent → StopArea → Option StopArea
with_parent model event sa =
    if lacks_parent event sa
    then on_found (find_stop_area model event.parent_object_id)
        (some (record sa { parent_id = "" })) (λ parent. some (record sa { parent_id = parent.id }))
    else some sa

unfoldable pub commit_stop_area : MemoryModel → ModelId → StopArea → MemoryModel × StopArea
commit_stop_area model uuid sa =
    let (changes, saved) = Transaction.save no_changes uuid sa in
    (commit_model (record begin { stop_areas = changes }) model, saved)

-- the end of updateStopArea
unfoldable pub report_origin : ℕ → StopAreaUpdateEvent → MemoryModel → StopArea → Option MemoryModel
report_origin depth event model sa =
    if not (is_blank event.origin) && not (or_false (get sa.origins event.origin))
    then update_status depth model
        (record { stop_area_id = sa.id; partner = event.origin; status = true })
    else some model

-- updateStopArea, on the stop area found or made
unfoldable pub store_stop_area :
    ℕ → ModelId → Time → MemoryModel → StopAreaUpdateEvent → StopArea → Option MemoryModel
store_stop_area depth uuid now model event sa = bind (with_parent model event sa) (λ placed.
    let (after, saved) = commit_stop_area model uuid (StopArea.updated placed now) in
    report_origin depth event after saved)

-- updateStopArea
unfoldable pub update_stop_area :
    ℕ → ModelId → Time → MemoryModel → StopAreaUpdateEvent → Option MemoryModel
update_stop_area depth uuid now model event =
    on_found (find_stop_area model event.object_id)
      (store_stop_area depth uuid now model event (created_stop_area event))
      (store_stop_area depth uuid now model event)
