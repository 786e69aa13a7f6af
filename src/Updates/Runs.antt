-- ===== src/Updates/Runs.antt =====
-- Each handler of model/update_manager.go ends with a sound model, and so does Update.
use ara.Prelude.{ℕ, String, ◌≡◌, refl, true, false, none, some, if◌then◌else◌, arith, string_key}
use ara.ObjectIdIndex.{ModelId}
use ara.ObjectIdIndex.Effect.{AreIdentifiers}
use ara.Store.{Found, found, missing, panic}
use ara.Store.Keeping.{IsProperAnswer}
use ara.Schedules.{Time}
use ara.StopArea
use ara.StopArea.{StopArea, stop_area_entity}
use ara.StopVisit.{stop_visit_entity, not_collected}
use ara.VehicleJourneys.{VehicleJourney, vehicle_journey_entity}
use ara.Line.{line_entity}
use ara.Vehicles.{Vehicle, vehicle_entity}
use ara.Transaction.{no_changes}
use ara.Model.{MemoryModel}
use ara.UpdateEvents.{
  StopAreaUpdateEvent, VehicleUpdateEvent, NotCollectedUpdateEvent, UpdateEvent, stop_area_event,
  line_event, vehicle_journey_event, stop_visit_event, vehicle_event, status_event,
  not_collected_event,
}
use ara.Updates.{on_found, find_stop_area, find_vehicle_journey, find_stop_visit, find_vehicle}
use ara.Updates.Soundness.{
  IsRun, EndsWithin, on_found-IsRun, some-IsRun, commit-IsRun, single-AreIdentifiers,
  save-HaveIdentifiers, tx-IsProperAnswer, update_status-IsRun,
}
use ara.TransactionalModel.Soundness.{IsSoundModel, commit_model-IsSoundModel}
use ara.Updates.Areas.{
  lacks_parent, with_parent, commit_stop_area, report_origin, store_stop_area, update_stop_area,
  created_stop_area,
}
use ara.Updates.Dispatch.{
  created_vehicle, revised_vehicle, store_vehicle, update_vehicle_of, update_vehicle,
  update_not_collected, update,
}
use ara.Updates.JourneyRuns.{update_line-IsRun, update_vehicle_journey-IsRun}
use ara.Updates.VisitRuns.{update_stop_visit-IsRun}

store_vehicle-IsRun :
    (uuid : ModelId) (model : MemoryModel) (vehicle : Vehicle)
    → IsSoundModel model
    → AreIdentifiers vehicle.object_ids
    → IsRun (store_vehicle uuid model vehicle)
unfolding store_vehicle
store_vehicle-IsRun uuid model vehicle x a =
    commit-IsRun _ model
      (record {
        stop_areas = tt;
        stop_visits = tt;
        vehicle_journeys = tt;
        lines = tt;
        vehicles = save-HaveIdentifiers no_changes uuid vehicle a tt;
      })
      x

update_vehicle_of-IsRun :
    (uuid : ModelId) (now : Time) (model : MemoryModel) (event : VehicleUpdateEvent)
    (vj : Found VehicleJourney)
    → IsSoundModel model
    → IsRun (update_vehicle_of uuid now model event vj)
unfolding update_vehicle_of revised_vehicle
update_vehicle_of-IsRun uuid now model event vj x =
    on_found-IsRun (find_vehicle model event.object_id) _ _
      (tx-IsProperAnswer model.vehicles event.object_id x.vehicles)
      (store_vehicle-IsRun uuid model (revised_vehicle model event now vj (created_vehicle event)) x
        (single-AreIdentifiers event.object_id))
      (λ vehicle a. store_vehicle-IsRun uuid model (revised_vehicle model event now vj vehicle) x a)

journey_found :
    (uuid : ModelId) (now : Time) (model : MemoryModel) (event : VehicleUpdateEvent)
    (f : Found VehicleJourney)
    → IsSoundModel model
    → IsProperAnswer f
    → IsRun (elim f [
      | panic ↦ none
      | missing ↦ update_vehicle_of uuid now model event missing
      | found vj ↦ update_vehicle_of uuid now model event (found vj)
    ])
journey_found uuid now model event (found vj) x p =
    update_vehicle_of-IsRun uuid now model event (found vj) x
journey_found uuid now model event missing x p =
    update_vehicle_of-IsRun uuid now model event missing x
journey_found uuid now model event panic x p = absurd p

update_vehicle-IsRun :
    (uuid : ModelId) (now : Time) (model : MemoryModel) (event : VehicleUpdateEvent)
    → IsSoundModel model
    → IsRun (update_vehicle uuid now model event)
unfolding update_vehicle
update_vehicle-IsRun uuid now model event x =
    journey_found uuid now model event (find_vehicle_journey model event.vehicle_journey_object_id)
      x
      (tx-IsProperAnswer model.vehicle_journeys.store event.vehicle_journey_object_id
        x.vehicle_journeys)

update_not_collected-IsRun :
    (model : MemoryModel) (event : NotCollectedUpdateEvent)
    → IsSoundModel model
    → IsRun (update_not_collected model event)
unfolding update_not_collected
update_not_collected-IsRun model event x =
    on_found-IsRun (find_stop_visit model event.object_id) _ _
      (tx-IsProperAnswer model.stop_visits.store event.object_id x.stop_visits) (some-IsRun model x)
      (λ sv a.
        commit-IsRun _ model
          (record {
            stop_areas = tt;
            stop_visits = save-HaveIdentifiers no_changes "" (not_collected sv) a tt;
            vehicle_journeys = tt;
            lines = tt;
            vehicles = tt;
          })
          x)

id_of_parent-cases :
    (model : MemoryModel) (event : StopAreaUpdateEvent) (sa : StopArea) (f : Found StopArea)
    → IsProperAnswer f
    → (id : ModelId) × (on_found f
          (some (record sa { parent_id = "" }))
          (λ parent. some (record sa { parent_id = parent.id }))
        ≡ some (record sa { parent_id = id }))
id_of_parent-cases model event sa (found parent) p = (parent.id, refl)
id_of_parent-cases model event sa missing p = ("", refl)
id_of_parent-cases model event sa panic p = absurd p

-- the parent is all that may be set
with_parent-cases :
    (model : MemoryModel) (event : StopAreaUpdateEvent) (sa : StopArea)
    → IsSoundModel model
    → (id : ModelId) × (with_parent model event sa ≡ some (record sa { parent_id = id }))
unfolding with_parent
with_parent-cases model event sa x =
    elim (lacks_parent event sa)
      as (λ b.
        (id : ModelId) × ((if b
            then on_found (find_stop_area model event.parent_object_id)
                (some (record sa { parent_id = "" }))
                (λ parent. some (record sa { parent_id = parent.id }))
            else some sa)
          ≡ some (record sa { parent_id = id }))) [
            | true ↦
                id_of_parent-cases model event sa (find_stop_area model event.parent_object_id)
                  (tx-IsProperAnswer model.stop_areas.store event.parent_object_id x.stop_areas)
            | false ↦ (sa.parent_id, refl)
          ]

commit_stop_area-IsSoundModel :
    (model : MemoryModel) (uuid : ModelId) (sa : StopArea)
    → IsSoundModel model
    → AreIdentifiers sa.object_ids
    → IsSoundModel (commit_stop_area model uuid sa).0
unfolding commit_stop_area
commit_stop_area-IsSoundModel model uuid sa x a =
    commit_model-IsSoundModel _ model
      (record {
        stop_areas = save-HaveIdentifiers no_changes uuid sa a tt;
        stop_visits = tt;
        vehicle_journeys = tt;
        lines = tt;
        vehicles = tt;
      })
      x

store_stop_area-IsRun :
    (depth : ℕ) (uuid : ModelId) (now : Time) (model : MemoryModel) (event : StopAreaUpdateEvent)
    (sa : StopArea)
    → IsSoundModel model
    → event.origin ≡ ""
    → AreIdentifiers sa.object_ids
    → IsRun (store_stop_area depth uuid now model event sa)
unfolding store_stop_area report_origin
store_stop_area-IsRun depth uuid now model event sa x o a =
    let (id, e) = with_parent-cases model event sa x in
    let placed = StopArea.updated (record sa { parent_id = id }) now in
    (
      (commit_stop_area model uuid placed).0,
      ground arith,
      commit_stop_area-IsSoundModel model uuid placed x a,
    )

update_stop_area-IsRun :
    (depth : ℕ) (uuid : ModelId) (now : Time) (model : MemoryModel) (event : StopAreaUpdateEvent)
    → IsSoundModel model
    → event.origin ≡ ""
    → IsRun (update_stop_area depth uuid now model event)
unfolding update_stop_area
update_stop_area-IsRun depth uuid now model event x o =
    on_found-IsRun (find_stop_area model event.object_id) _ _
      (tx-IsProperAnswer model.stop_areas.store event.object_id x.stop_areas)
      (store_stop_area-IsRun depth uuid now model event (created_stop_area event) x o
        (single-AreIdentifiers event.object_id))
      (λ sa a. store_stop_area-IsRun depth uuid now model event sa x o a)

-- A stop area event has no origin, so that updateStopArea does not walk up from the stop area
-- whose parent it has just set.
abbrev pub HasNoWalk : UpdateEvent → Type 0
HasNoWalk (stop_area_event event) = event.origin ≡ ""
HasNoWalk _ = Unit

-- On a sound model in which findAscendants ends within the depth from every stop area, Update ends
-- without a panic on every event, other than a stop area event with an origin, and leaves a sound
-- model.
pub update-IsRun :
    (hash : String → String) (depth : ℕ) (uuid : ModelId) (now later : Time) (model : MemoryModel)
    (event : UpdateEvent)
    → IsSoundModel model
    → EndsWithin depth model
    → HasNoWalk event
    → IsRun (update hash depth uuid now later model event)
unfolding update
update-IsRun hash depth uuid now later model (stop_area_event event) x ends w =
    update_stop_area-IsRun depth uuid now model event x w
update-IsRun hash depth uuid now later model (line_event event) x ends w =
    update_line-IsRun hash uuid now model event x
update-IsRun hash depth uuid now later model (vehicle_journey_event event) x ends w =
    update_vehicle_journey-IsRun hash uuid model event x
update-IsRun hash depth uuid now later model (stop_visit_event event) x ends w =
    update_stop_visit-IsRun hash depth uuid now later model event x ends
update-IsRun hash depth uuid now later model (vehicle_event event) x ends w =
    update_vehicle-IsRun uuid now model event x
update-IsRun hash depth uuid now later model (status_event event) x ends w =
    update_status-IsRun depth model event x ends
update-IsRun hash depth uuid now later model (not_collected_event event) x ends w =
    update_not_collected-IsRun model event x
