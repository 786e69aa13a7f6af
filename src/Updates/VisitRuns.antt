-- ===== src/Updates/VisitRuns.antt =====
-- updateStopVisit of model/update_manager.go ends with a sound model.
use ara.Prelude.{
  ℕ, String, ◌≡◌, refl, subst, true, false, not, ◌&&◌, Option, none, some, if◌then◌else◌, arith,
  string_key,
}
use ara.GoMap.{get}
use ara.ObjectIdIndex.{ModelId}
use ara.ObjectIdIndex.Effect.{AreIdentifiers}
use ara.Store
use ara.Store.{Found, found, missing, panic}
use ara.Store.Keeping.{find-AreIdentifiers}
use ara.References.{is_blank}
use ara.Schedules.{Time}
use ara.StopArea.{StopArea, stop_area_entity}
use ara.StopVisit.{StopVisit, stop_visit_entity}
use ara.VehicleJourneys.{VehicleJourney, vehicle_journey_entity, line}
use ara.Line.{Line, line_entity}
use ara.Vehicles.{vehicle_entity}
use ara.Transaction
use ara.Transaction.{Changes, no_changes, find_saved}
use ara.Transaction.Reads.{HaveIdentifiers}
use ara.Model.{MemoryModel}
use ara.UpdateEvents.{StopVisitUpdateEvent}
use ara.Updates.{
  bind, find_stop_area, find_vehicle_journey, find_stop_visit, differs, update_monitored_stop_area,
}
use ara.Updates.Soundness.{
  IsRun, EndsWithin, on_found-IsRun, some-IsRun, commit-IsRun, default_identifiers-AreIdentifiers,
  save-HaveIdentifiers, tx-IsProperAnswer, update_monitored_stop_area-IsRun,
}
use ara.TransactionalModel.Soundness.{IsSoundModel}
use ara.Updates.Visits.{
  note_referent, with_line_id, note_line, created_stop_visit, revised_stop_visit, note_monitored,
  report_monitored, store_stop_visit, update_stop_visit, is_news,
}

module _ (hash : String → String) where
  note_referent-HaveIdentifiers :
      (model : MemoryModel) (l : Line) (id : ModelId) (o : Option StopArea)
      → IsSoundModel model
      → Store.find model.stop_areas.store id ≡ o
      → HaveIdentifiers (note_referent hash l o).saved
  note_referent-HaveIdentifiers model l id none x e = tt
  note_referent-HaveIdentifiers model l id (some referent) x e =
      save-HaveIdentifiers no_changes "" (with_line_id hash l referent)
        (find-AreIdentifiers model.stop_areas.store id referent x.stop_areas e) tt

  note_line-HaveIdentifiers :
      (model : MemoryModel) (l : Option Line) (sa : StopArea)
      → IsSoundModel model
      → AreIdentifiers sa.object_ids
      → HaveIdentifiers (note_line hash model l sa).saved
  unfolding note_line Transaction.find find_saved get
  note_line-HaveIdentifiers model none sa x a = tt
  note_line-HaveIdentifiers model (some l) sa x a =
      save-HaveIdentifiers _ "" (with_line_id hash l sa) a (
        note_referent-HaveIdentifiers model l sa.referent_id
          (Store.find model.stop_areas.store sa.referent_id) x refl)

  note_monitored-HaveIdentifiers :
      (event : StopVisitUpdateEvent) (vj : VehicleJourney)
      → AreIdentifiers vj.object_ids
      → HaveIdentifiers (note_monitored hash event vj).saved
  unfolding note_monitored
  note_monitored-HaveIdentifiers event vj a =
      elim (differs event.monitored vj.monitored)
        as (λ b.
          HaveIdentifiers
            (if b
              then (Transaction.save no_changes "" (record vj { monitored = event.monitored })).0
              else no_changes).saved) [
                | true ↦
                    save-HaveIdentifiers no_changes "" (record vj { monitored = event.monitored }) a
                      tt
                | false ↦ tt
              ]

  report_monitored-IsRun :
      (depth : ℕ) (model : MemoryModel) (event : StopVisitUpdateEvent) (sa : StopArea)
      → IsSoundModel model
      → EndsWithin depth model
      → IsRun (report_monitored hash depth model event sa)
  unfolding report_monitored
  report_monitored-IsRun depth model event sa x ends =
      elim (not (is_blank event.origin)
          && is_news hash (get sa.origins event.origin) event.monitored)
        as (λ b. IsRun (
          if b
          then update_monitored_stop_area depth model sa.id event.origin event.monitored
          else some model)) [
            | true ↦
                update_monitored_stop_area-IsRun depth model sa.id event.origin event.monitored x
                  ends
            | false ↦ some-IsRun model x
          ]

  bind-IsRun :
      (run : Option MemoryModel) (k : MemoryModel → Option MemoryModel)
      → IsRun run
      → ((after : MemoryModel) → IsSoundModel after → IsRun (k after))
      → IsRun (bind run k)
  bind-IsRun none k (after, e, x) r = cc
  bind-IsRun (some model) k (after, e, x) r =
      let q : after ≡ model = ground arith in r model (subst IsSoundModel q x)

  store_stop_visit-IsRun :
      (depth : ℕ) (uuid : ModelId) (now later : Time) (model : MemoryModel)
      (event : StopVisitUpdateEvent) (sa : StopArea) (vj : VehicleJourney) (sv : StopVisit)
      → IsSoundModel model
      → EndsWithin depth model
      → AreIdentifiers sa.object_ids
      → AreIdentifiers vj.object_ids
      → AreIdentifiers sv.object_ids
      → IsRun (store_stop_visit hash depth uuid now later model event sa vj sv)
  unfolding store_stop_visit revised_stop_visit
  store_stop_visit-IsRun depth uuid now later model event sa vj sv x ends a b c =
      bind-IsRun (report_monitored hash depth model event sa) _
        (report_monitored-IsRun depth model event sa x ends)
        (λ after y.
          commit-IsRun _ after
            (record {
              stop_areas = note_line-HaveIdentifiers model (line (some model.lines) vj) sa x a;
              stop_visits =
                  save-HaveIdentifiers no_changes uuid (revised_stop_visit hash event now later sv)
                    c tt;
              vehicle_journeys = note_monitored-HaveIdentifiers event vj b;
              lines = tt;
              vehicles = tt;
            })
            y)

  pub update_stop_visit-IsRun :
      (depth : ℕ) (uuid : ModelId) (now later : Time) (model : MemoryModel)
      (event : StopVisitUpdateEvent)
      → IsSoundModel model
      → EndsWithin depth model
      → IsRun (update_stop_visit hash depth uuid now later model event)
  unfolding update_stop_visit
  update_stop_visit-IsRun depth uuid now later model event x ends =
      on_found-IsRun (find_stop_area model event.stop_area_object_id) _ _
        (tx-IsProperAnswer model.stop_areas.store event.stop_area_object_id x.stop_areas)
        (some-IsRun model x)
        (λ sa a.
          on_found-IsRun (find_vehicle_journey model event.vehicle_journey_object_id) _ _
            (tx-IsProperAnswer model.vehicle_journeys.store event.vehicle_journey_object_id
              x.vehicle_journeys)
            (some-IsRun model x)
            (λ vj b.
              on_found-IsRun (find_stop_visit model event.object_id) _ _
                (tx-IsProperAnswer model.stop_visits.store event.object_id x.stop_visits)
                (store_stop_visit-IsRun depth uuid now later model event sa vj
                  (created_stop_visit hash event sa vj) x ends a b
                  (default_identifiers-AreIdentifiers hash event.object_id))
                (λ sv c.
                  store_stop_visit-IsRun depth uuid now later model event sa vj sv x ends a b c)))
