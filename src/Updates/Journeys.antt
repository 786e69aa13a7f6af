-- ===== src/Updates/Journeys.antt =====
-- updateLine and updateVehicleJourney of model/update_manager.go; `hash` is that of HashValue.
use ara.Prelude.{String, true, Option, none, some, if◌then◌else◌, string_key}
use ara.GoMap.{get}
use ara.ObjectId.{new}
use ara.ObjectIdIndex.{ModelId}
use ara.Schedules.{Time}
use ara.Attributes
use ara.Attributes.{Attributes}
use ara.References
use ara.References.{is_blank, add}
use ara.StopArea.{stop_area_entity}
use ara.StopVisit.{stop_visit_entity}
use ara.VehicleJourneys
use ara.VehicleJourneys.{VehicleJourney, vehicle_journey_entity, line}
use ara.Line
use ara.Line.{Line, line_entity}
use ara.Vehicles.{vehicle_entity}
use ara.Transaction
use ara.Transaction.{Changes, no_changes}
use ara.Model.{MemoryModel}
use ara.TransactionalModel.{begin, commit_model}
use ara.UpdateEvents.{
  LineUpdateEvent, VehicleJourneyUpdateEvent, vehicle_journey_attributes,
  vehicle_journey_references,
}
use ara.Updates.{on_found, find_line, find_vehicle_journey, default_identifiers}

module _ (hash : String → String) where
  abbrev pub created_line : LineUpdateEvent → Line
  created_line event = record Line.new {
    object_ids = default_identifiers hash event.object_id;
    collect_general_messages = true;
    name = event.name;
    origin = event.origin;
  }

  unfoldable pub store_line : ModelId → Time → MemoryModel → Line → Option MemoryModel
  store_line uuid now model l = some (
      commit_model
        (record begin { lines = (Transaction.save no_changes uuid (Line.updated l now)).0 }) model)

  -- updateLine
  unfoldable pub update_line : ModelId → Time → MemoryModel → LineUpdateEvent → Option MemoryModel
  update_line uuid now model event =
      on_found (find_line model event.object_id) (store_line uuid now model (created_line event))
        (store_line uuid now model)

  abbrev pub or_blank : Option String → String
  or_blank none = ""
  or_blank (some s) = s

  abbrev pub created_vehicle_journey : VehicleJourneyUpdateEvent → Line → VehicleJourney
  created_vehicle_journey event l = record VehicleJourneys.new {
    object_ids = default_identifiers hash event.object_id;
    origin = event.origin;
    name = or_blank (get (vehicle_journey_attributes event) "VehicleJourneyName");
    line_id = l.id;
    attributes = vehicle_journey_attributes event;
    references = vehicle_journey_references event;
  }

  -- what updateVehicleJourney sets on a vehicle journey found or made
  unfoldable pub revised_vehicle_journey :
      VehicleJourneyUpdateEvent → VehicleJourney → VehicleJourney
  revised_vehicle_journey event vj = record vj {
    references =
        References.set_object_id
          (References.set_object_id vj.references "OriginRef"
            (new event.object_id.kind event.origin_ref))
          "DestinationRef" (new event.object_id.kind event.destination_ref);
    origin_name = event.origin_name;
    destination_name = event.destination_name;
    attributes =
        if is_blank event.direction
        then vj.attributes
        else Attributes.put vj.attributes "DirectionName" event.direction;
    monitored = event.monitored;
  }

  unfoldable pub store_vehicle_journey :
      ModelId → MemoryModel → VehicleJourneyUpdateEvent → VehicleJourney → Option MemoryModel
  store_vehicle_journey uuid model event vj = some (
      commit_model
        (record begin {
          vehicle_journeys =
              (Transaction.save no_changes uuid (revised_vehicle_journey event vj)).0;
        })
        model)

  -- updateVehicleJourney
  unfoldable pub update_vehicle_journey :
      ModelId → MemoryModel → VehicleJourneyUpdateEvent → Option MemoryModel
  update_vehicle_journey uuid model event =
      on_found (find_vehicle_journey model event.object_id)
        (on_found (find_line model event.line_object_id) (some model)
          (λ l. store_vehicle_journey uuid model event (created_vehicle_journey event l)))
        (store_vehicle_journey uuid model event)
