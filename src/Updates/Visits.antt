-- ===== src/Updates/Visits.antt =====
-- updateStopVisit of model/update_manager.go; `hash` is that of HashValue.
use ara.Prelude.{ℕ, String, Bool, true, not, ◌&&◌, Option, none, some, if◌then◌else◌, string_key}
use ara.GoMap.{get}
use ara.ObjectIdIndex.{ModelId}
use ara.Schedules.{Time, is_zero, include, merge}
use ara.References.{is_blank, add}
use ara.StopArea.{StopArea, stop_area_entity}
use ara.StopVisit
use ara.StopVisit.{StopVisit, stop_visit_entity, not_collected, collect_at}
use ara.VehicleJourneys.{VehicleJourney, vehicle_journey_entity, line}
use ara.Line.{Line, line_entity}
use ara.Vehicles.{vehicle_entity}
use ara.Transaction
use ara.Transaction.{Changes, no_changes}
use ara.Model.{MemoryModel}
use ara.TransactionalModel.{begin, commit_model}
use ara.UpdateEvents.{StopVisitUpdateEvent, stop_visit_attributes, stop_visit_references}
use ara.Updates.{
  on_found, bind, differs, find_stop_area, find_vehicle_journey, find_stop_visit,
  update_monitored_stop_area, default_identifiers,
}

module _ (hash : String → String) where
  -- the stop area with the line noted, and with it the referent
  abbrev pub with_line_id : Line → StopArea → StopArea
  with_line_id l sa = record sa { line_ids = add sa.line_ids l.id }

  abbrev pub note_referent : Line → Option StopArea → Changes StopArea
  note_referent l none = no_changes
  note_referent l (some referent) = (Transaction.save no_changes "" (with_line_id l referent)).0

  -- `if l != nil` of updateStopVisit
  unfoldable pub note_line : MemoryModel → Option Line → StopArea → Changes StopArea
  note_line model none sa = no_changes
  note_line model (some l) sa =
      (Transaction.save
        (note_referent l (Transaction.find no_changes model.stop_areas.store sa.referent_id)) ""
        (with_line_id l sa)).0

  abbrev pub created_stop_visit : StopVisitUpdateEvent → StopArea → VehicleJourney → StopVisit
  created_stop_visit event sa vj = record StopVisit.new {
    object_ids = default_identifiers hash event.object_id;
    stop_area_id = sa.id;
    vehicle_journey_id = vj.id;
    origin = event.origin;
    passage_order = event.passage_order;
    data_frame_ref = event.data_frame_ref;
    attributes = stop_visit_attributes event;
    references = stop_visit_references event;
  }

  unfoldable pub recorded_time : StopVisitUpdateEvent → Time → StopVisit → Time
  recorded_time event now sv =
      if not (is_zero event.recorded_at)
      then event.recorded_at
      else (if not (include sv.schedules event.schedules) then now else sv.recorded_at)

  -- what updateStopVisit sets on a stop visit found or made; the clock is read twice
  unfoldable pub revised_stop_visit : StopVisitUpdateEvent → Time → Time → StopVisit → StopVisit
  revised_stop_visit event now later sv =
      collect_at
        (record sv {
          recorded_at = recorded_time event now sv;
          schedules = merge sv.schedules event.schedules;
          departure_status = event.departure_status;
          arrival_status = event.arrival_status;
          vehicle_at_stop = event.vehicle_at_stop;
        })
        later

  unfoldable pub note_monitored : StopVisitUpdateEvent → VehicleJourney → Changes VehicleJourney
  note_monitored event vj =
      if differs event.monitored vj.monitored
      then (Transaction.save no_changes "" (record vj { monitored = event.monitored })).0
      else no_changes

  -- the test of the origin: a partner that the stop area does not know, or with another status
  abbrev pub is_news : Option Bool → Bool → Bool
  is_news none monitored = true
  is_news (some status) monitored = differs status monitored

  unfoldable pub report_monitored :
      ℕ → MemoryModel → StopVisitUpdateEvent → StopArea → Option MemoryModel
  report_monitored depth model event sa =
      if not (is_blank event.origin) && is_news (get sa.origins event.origin) event.monitored
      then update_monitored_stop_area depth model sa.id event.origin event.monitored
      else some model

  -- the end of updateStopVisit: another transaction first, then the commit of this one
  unfoldable pub store_stop_visit :
      ℕ
      → ModelId
      → Time
      → Time
      → MemoryModel
      → StopVisitUpdateEvent
      → StopArea
      → VehicleJourney
      → StopVisit
      → Option MemoryModel
  store_stop_visit depth uuid now later model event sa vj sv =
      bind (report_monitored depth model event sa) (λ after. some (
        commit_model
          (record begin {
            stop_areas = note_line model (line (some model.lines) vj) sa;
            vehicle_journeys = note_monitored event vj;
            stop_visits =
                (Transaction.save no_changes uuid (revised_stop_visit event now later sv)).0;
          })
          after))

  -- updateStopVisit
  unfoldable pub update_stop_visit :
      ℕ → ModelId → Time → Time → MemoryModel → StopVisitUpdateEvent → Option MemoryModel
  update_stop_visit depth uuid now later model event =
      on_found (find_stop_area model event.stop_area_object_id) (some model) (λ sa.
        on_found (find_vehicle_journey model event.vehicle_journey_object_id) (some model) (λ vj.
          on_found (find_stop_visit model event.object_id)
            (store_stop_visit depth uuid now later model event sa vj
              (created_stop_visit event sa vj))
            (store_stop_visit depth uuid now later model event sa vj)))
