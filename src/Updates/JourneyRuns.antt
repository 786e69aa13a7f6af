-- ===== src/Updates/JourneyRuns.antt =====
-- updateLine and updateVehicleJourney of model/update_manager.go end with a sound model.
use ara.Prelude.{String, string_key}
use ara.ObjectIdIndex.{ModelId}
use ara.ObjectIdIndex.Effect.{AreIdentifiers}
use ara.Schedules.{Time}
use ara.StopArea.{stop_area_entity}
use ara.StopVisit.{stop_visit_entity}
use ara.VehicleJourneys.{VehicleJourney, vehicle_journey_entity}
use ara.Line
use ara.Line.{Line, line_entity}
use ara.Vehicles.{vehicle_entity}
use ara.Transaction.{no_changes}
use ara.Model.{MemoryModel}
use ara.UpdateEvents.{LineUpdateEvent, VehicleJourneyUpdateEvent}
use ara.Updates.{find_line, find_vehicle_journey}
use ara.Updates.Soundness.{
  IsRun, on_found-IsRun, some-IsRun, commit-IsRun, default_identifiers-AreIdentifiers,
  save-HaveIdentifiers, tx-IsProperAnswer,
}
use ara.TransactionalModel.Soundness.{IsSoundModel}
use ara.Updates.Journeys.{
  store_line, update_line, created_line, created_vehicle_journey, revised_vehicle_journey,
  store_vehicle_journey, update_vehicle_journey,
}

module _ (hash : String → String) where
  store_line-IsRun :
      (uuid : ModelId) (now : Time) (model : MemoryModel) (l : Line)
      → IsSoundModel model
      → AreIdentifiers l.object_ids
      → IsRun (store_line hash uuid now model l)
  unfolding store_line
  store_line-IsRun uuid now model l x a =
      commit-IsRun _ model
        (record {
          stop_areas = tt;
          stop_visits = tt;
          vehicle_journeys = tt;
          lines = save-HaveIdentifiers no_changes uuid (Line.updated l now) a tt;
          vehicles = tt;
        })
        x

  pub update_line-IsRun :
      (uuid : ModelId) (now : Time) (model : MemoryModel) (event : LineUpdateEvent)
      → IsSoundModel model
      → IsRun (update_line hash uuid now model event)
  unfolding update_line
  update_line-IsRun uuid now model event x =
      on_found-IsRun (find_line model event.object_id) _ _
        (tx-IsProperAnswer model.lines event.object_id x.lines)
        (store_line-IsRun uuid now model (created_line hash event) x
          (default_identifiers-AreIdentifiers hash event.object_id))
        (λ l a. store_line-IsRun uuid now model l x a)

  store_vehicle_journey-IsRun :
      (uuid : ModelId) (model : MemoryModel) (event : VehicleJourneyUpdateEvent)
      (vj : VehicleJourney)
      → IsSoundModel model
      → AreIdentifiers vj.object_ids
      → IsRun (store_vehicle_journey hash uuid model event vj)
  unfolding store_vehicle_journey revised_vehicle_journey
  store_vehicle_journey-IsRun uuid model event vj x a =
      commit-IsRun _ model
        (record {
          stop_areas = tt;
          stop_visits = tt;
          vehicle_journeys =
              save-HaveIdentifiers no_changes uuid (revised_vehicle_journey hash event vj) a tt;
          lines = tt;
          vehicles = tt;
        })
        x

  pub update_vehicle_journey-IsRun :
      (uuid : ModelId) (model : MemoryModel) (event : VehicleJourneyUpdateEvent)
      → IsSoundModel model
      → IsRun (update_vehicle_journey hash uuid model event)
  unfolding update_vehicle_journey
  update_vehicle_journey-IsRun uuid model event x =
      on_found-IsRun (find_vehicle_journey model event.object_id) _ _
        (tx-IsProperAnswer model.vehicle_journeys.store event.object_id x.vehicle_journeys)
        (on_found-IsRun (find_line model event.line_object_id) _ _
          (tx-IsProperAnswer model.lines event.line_object_id x.lines) (some-IsRun model x)
          (λ l a.
            store_vehicle_journey-IsRun uuid model event (created_vehicle_journey hash event l) x
              (default_identifiers-AreIdentifiers hash event.object_id)))
        (λ vj a. store_vehicle_journey-IsRun uuid model event vj x a)
