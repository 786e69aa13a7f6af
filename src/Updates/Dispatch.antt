-- ===== src/Updates/Dispatch.antt =====
-- updateVehicle, updateNotCollected and Update of model/update_manager.go.
use ara.Prelude.{ℕ, String, Option, none, some, [], string_key}
use ara.ObjectId.{set_object_id}
use ara.ObjectIdIndex.{ModelId}
use ara.Store.{Found, found, missing, panic}
use ara.Schedules.{Time}
use ara.StopArea.{stop_area_entity}
use ara.StopVisit.{stop_visit_entity, not_collected}
use ara.VehicleJourneys
use ara.VehicleJourneys.{VehicleJourney, vehicle_journey_entity, line}
use ara.Line.{Line, line_entity}
use ara.Vehicles
use ara.Vehicles.{Vehicle, vehicle_entity}
use ara.Transaction
use ara.Transaction.{Changes, no_changes}
use ara.Model.{MemoryModel}
use ara.TransactionalModel.{begin, commit_model}
use ara.UpdateEvents.{
  VehicleUpdateEvent, NotCollectedUpdateEvent, UpdateEvent, stop_area_event, line_event,
  vehicle_journey_event, stop_visit_event, vehicle_event, status_event, not_collected_event,
}
use ara.Updates.{on_found, find_vehicle_journey, find_stop_visit, find_vehicle, update_status}
use ara.Updates.Areas.{update_stop_area}
use ara.Updates.Journeys.{update_line, update_vehicle_journey}
use ara.Updates.Visits.{update_stop_visit}

-- the id and the line of a vehicle journey, none of which an unknown one has
abbrev pub journey_id : Found VehicleJourney → ModelId
journey_id (found vj) = vj.id
journey_id missing = ""
journey_id panic = ""

abbrev pub journey_line : MemoryModel → Found VehicleJourney → Option Line
journey_line model (found vj) = line (some model.lines) vj
journey_line model missing = line none VehicleJourneys.new
journey_line model panic = none

abbrev pub created_vehicle : VehicleUpdateEvent → Vehicle
created_vehicle event = record Vehicles.new { object_ids = set_object_id [] event.object_id }

abbrev pub line_or : Option Line → ModelId → ModelId
line_or none id = id
line_or (some l) id = l.id

-- what updateVehicle sets on a vehicle found or made
unfoldable pub revised_vehicle :
    MemoryModel → VehicleUpdateEvent → Time → Found VehicleJourney → Vehicle → Vehicle
revised_vehicle model event now vj vehicle = record vehicle {
  vehicle_journey_id = journey_id vj;
  longitude = event.longitude;
  latitude = event.latitude;
  bearing = event.bearing;
  recorded_at_time = now;
  line_id = line_or (journey_line model vj) vehicle.line_id;
}

unfoldable pub store_vehicle : ModelId → MemoryModel → Vehicle → Option MemoryModel
store_vehicle uuid model vehicle =
    some (
      commit_model (record begin { vehicles = (Transaction.save no_changes uuid vehicle).0 }) model)

unfoldable pub update_vehicle_of :
    ModelId → Time → MemoryModel → VehicleUpdateEvent → Found VehicleJourney → Option MemoryModel
update_vehicle_of uuid now model event vj =
    on_found (find_vehicle model event.object_id)
      (store_vehicle uuid model (revised_vehicle model event now vj (created_vehicle event)))
      (λ vehicle. store_vehicle uuid model (revised_vehicle model event now vj vehicle))

-- updateVehicle
unfoldable pub update_vehicle :
    ModelId → Time → MemoryModel → VehicleUpdateEvent → Option MemoryModel
update_vehicle uuid now model event =
    elim (find_vehicle_journey model event.vehicle_journey_object_id) [
      | panic ↦ none
      | missing ↦ update_vehicle_of uuid now model event missing
      | found vj ↦ update_vehicle_of uuid now model event (found vj)
    ]

-- updateNotCollected
unfoldable pub update_not_collected : MemoryModel → NotCollectedUpdateEvent → Option MemoryModel
update_not_collected model event =
    on_found (find_stop_visit model event.object_id) (some model) (λ sv. some (
      commit_model
        (record begin { stop_visits = (Transaction.save no_changes "" (not_collected sv)).0 })
        model))

-- Update
unfoldable pub update :
    (String → String) → ℕ → ModelId → Time → Time → MemoryModel → UpdateEvent → Option MemoryModel
update hash depth uuid now later model (stop_area_event event) =
    update_stop_area depth uuid now model event
update hash depth uuid now later model (line_event event) = update_line hash uuid now model event
update hash depth uuid now later model (vehicle_journey_event event) =
    update_vehicle_journey hash uuid model event
update hash depth uuid now later model (stop_visit_event event) =
    update_stop_visit hash depth uuid now later model event
update hash depth uuid now later model (vehicle_event event) = update_vehicle uuid now model event
update hash depth uuid now later model (status_event event) = update_status depth model event
update hash depth uuid now later model (not_collected_event event) =
    update_not_collected model event
