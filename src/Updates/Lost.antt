-- ===== src/Updates/Lost.antt =====
-- Two ways in which model/update_manager.go goes wrong: the status that a stop visit event reports is
-- overwritten, and a stop area event can make a stop area its own parent.
use ara.Prelude.{ℕ, String, ◌≡◌, refl, subst, ap, ◌∙◌, Option, none, some, [], arith, string_key}
use ara.GoMap.{get, get-set}
use ara.ObjectIdIndex.{ModelId}
use ara.Store
use ara.Store.{Found, found, missing, panic, identified}
use ara.Schedules.{Time}
use ara.StopArea.{StopArea, copy, stop_area_entity}
use ara.StopAreas
use ara.StopVisit.{StopVisit, stop_visit_entity}
use ara.VehicleJourneys.{VehicleJourney, vehicle_journey_entity, line}
use ara.Line.{Line, line_entity}
use ara.Transaction
use ara.Transaction.{Changes, no_changes, find_saved, commit}
use ara.Transaction.Commit.{AreChanges, find-commit}
use ara.Transaction.Reads.{no_changes-AreChanges, save-AreChanges}
use ara.Model.{MemoryModel}
use ara.TransactionalModel.{commit_model, commit_stop_areas}
use ara.TransactionalModel.Soundness.{IsSoundModel}
use ara.UpdateEvents.{StopVisitUpdateEvent}
use ara.Updates.{bind, on_found, find_stop_area, find_vehicle_journey, find_stop_visit}
use ara.Updates.Marks.{identified_blank, store-commit_stop_areas}
use ara.Updates.Soundness.{EndsWithin}
use ara.Updates.VisitRuns.{update_stop_visit-IsRun}
use ara.Updates.Visits.{
  with_line_id, note_line, note_referent, store_stop_visit, update_stop_visit, report_monitored,
  created_stop_visit,
}

module _ (hash : String → String) where
  note_referent-AreChanges : (l : Line) (o : Option StopArea) → AreChanges (note_referent hash l o)
  note_referent-AreChanges l none = no_changes-AreChanges
  note_referent-AreChanges l (some referent) =
      save-AreChanges no_changes "" (with_line_id hash l referent) no_changes-AreChanges

  deleted-note_referent : (l : Line) (o : Option StopArea) → (note_referent hash l o).deleted ≡ []
  unfolding Transaction.save
  deleted-note_referent l none = refl
  deleted-note_referent l (some referent) = refl

  note_line-AreChanges :
      (model : MemoryModel) (l : Line) (sa : StopArea)
      → AreChanges (note_line hash model (some l) sa)
  unfolding note_line
  note_line-AreChanges model l sa =
      save-AreChanges _ "" (with_line_id hash l sa) (note_referent-AreChanges l _)

  get-note_line :
      (model : MemoryModel) (l : Line) (sa : StopArea)
      → get (note_line hash model (some l) sa).saved sa.id ≡ some (with_line_id hash l sa)
  unfolding note_line Transaction.save
  get-note_line model l sa =
      let sa' = with_line_id hash l sa in
      get-set
        (note_referent hash l
          (Transaction.find no_changes model.stop_areas.store sa.referent_id)).saved
        (identified "" sa').id (identified "" sa') sa.id
      ∙ ground (arith, identified_blank sa')

  deleted-note_line :
      (model : MemoryModel) (l : Line) (sa : StopArea)
      → (note_line hash model (some l) sa).deleted ≡ []
  unfolding note_line Transaction.save
  deleted-note_line model l sa =
      deleted-note_referent l (Transaction.find no_changes model.stop_areas.store sa.referent_id)

  find-noted :
      (model mid : MemoryModel) (l : Line) (sa : StopArea)
      → Store.find (commit_stop_areas (note_line hash model (some l) sa) mid.stop_areas).store sa.id
        ≡ some (copy (with_line_id hash l sa))
  unfolding find_saved
  find-noted model mid l sa =
      ap (λ s. Store.find s sa.id)
        (store-commit_stop_areas (note_line hash model (some l) sa) mid.stop_areas)
      ∙ find-commit (note_line hash model (some l) sa) mid.stop_areas.store sa.id
          (note_line-AreChanges model l sa)
      ∙ ground (arith, get-note_line model l sa)

  bind-some :
      (run : Option MemoryModel) (k : MemoryModel → Option MemoryModel) (after : MemoryModel)
      → bind run k ≡ some after
      → (mid : MemoryModel) × (k mid ≡ some after)
  bind-some none k after e = cc
  bind-some (some mid) k after e = (mid, e)

  on_visit :
      {G : Type 0} (make : StopVisit) (store : StopVisit → Option MemoryModel) (after : MemoryModel)
      (f : Found StopVisit)
      → ((sv : StopVisit) → store sv ≡ some after → G)
      → on_found f (store make) store ≡ some after
      → G
  on_visit make store after (found sv) k e = k sv e
  on_visit make store after missing k e = k make e
  on_visit make store after panic k e = cc

  store_stop_visit-lost :
      (depth : ℕ) (uuid : ModelId) (now later : Time) (model after : MemoryModel)
      (event : StopVisitUpdateEvent) (sa : StopArea) (vj : VehicleJourney) (sv : StopVisit)
      (l : Line)
      → line (some model.lines) vj ≡ some l
      → store_stop_visit hash depth uuid now later model event sa vj sv ≡ some after
      → StopAreas.find after.stop_areas sa.id ≡ some (copy (with_line_id hash l sa))
  unfolding store_stop_visit StopAreas.find commit_model
  store_stop_visit-lost depth uuid now later model after event sa vj sv l n e =
      let (mid, q) = bind-some (report_monitored hash depth model event sa) _ after e in
      let p : commit_stop_areas (note_line hash model (some l) sa) mid.stop_areas
          ≡ after.stop_areas =
        ground arith in
      subst (λ areas. Store.find areas.store sa.id ≡ some (copy (with_line_id hash l sa))) p
        (find-noted model mid l sa)

  stored :
      (depth : ℕ) (uuid : ModelId) (now later : Time) (model after : MemoryModel)
      (event : StopVisitUpdateEvent) (sa : StopArea) (vj : VehicleJourney) (l : Line)
      → find_stop_area model event.stop_area_object_id ≡ found sa
      → find_vehicle_journey model event.vehicle_journey_object_id ≡ found vj
      → line (some model.lines) vj ≡ some l
      → update_stop_visit hash depth uuid now later model event ≡ some after
      → StopAreas.find after.stop_areas sa.id ≡ some (copy (with_line_id hash l sa))
  unfolding update_stop_visit
  stored depth uuid now later model after event sa vj l f g n e =
      on_visit (created_stop_visit hash event sa vj)
        (store_stop_visit hash depth uuid now later model event sa vj) after
        (find_stop_visit model event.object_id)
        (λ sv. store_stop_visit-lost depth uuid now later model after event sa vj sv l n)
        (ground arith)

  -- On a sound model in which findAscendants ends within the depth, where the stop area and the
  -- vehicle journey of a stop visit event are found and the journey has a line, updateStopVisit
  -- ends, and its stop area is then as it was found, with the line added: whatever status the
  -- event reports, the origins of the stop area and whether it is monitored have not changed.
  pub find-update_stop_visit :
      (depth : ℕ) (uuid : ModelId) (now later : Time) (model : MemoryModel)
      (event : StopVisitUpdateEvent) (sa : StopArea) (vj : VehicleJourney) (l : Line)
      → IsSoundModel model
      → EndsWithin depth model
      → find_stop_area model event.stop_area_object_id ≡ found sa
      → find_vehicle_journey model event.vehicle_journey_object_id ≡ found vj
      → line (some model.lines) vj ≡ some l
      → (after : MemoryModel) × (update_stop_visit hash depth uuid now later model event
          ≡ some after)
        × (StopAreas.find after.stop_areas sa.id ≡ some (copy (with_line_id hash l sa)))
  find-update_stop_visit depth uuid now later model event sa vj l x ends f g n =
      let (after, e, s) = update_stop_visit-IsRun hash depth uuid now later model event x ends in
      (after, e, stored depth uuid now later model after event sa vj l f g n e)
