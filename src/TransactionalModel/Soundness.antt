-- ===== src/TransactionalModel/Soundness.antt =====
-- What holds of a model whose managers are sound, and that the commit of a transaction keeps it.
use ara.Prelude.{true, [], ◌∷◌, string_key}
use ara.GoMap.{Map}
use ara.ObjectIdIndex.{ModelId}
use ara.ObjectIdIndex.Effect.{AreIdentifiers}
use ara.Store
use ara.Store.{Entity, Store}
use ara.Store.Keeping.{IsProper, keep-IsProper, remove-IsProper, empty-IsProper}
use ara.StopArea.{StopArea, stop_area_entity}
use ara.StopAreas
use ara.StopVisit.{StopVisit, stop_visit_entity}
use ara.StopVisits
use ara.StopVisits.Searches as Visits
use ara.VehicleJourneys
use ara.VehicleJourneys.{VehicleJourney, vehicle_journey_entity}
use ara.VehicleJourneys.Searches as Journeys
use ara.Line.{line_entity}
use ara.Vehicles.{vehicle_entity}
use ara.Model
use ara.Model.{MemoryModel}
use ara.Transaction.{Changes, remove_all, save_all, commit}
use ara.Transaction.Reads.{HaveIdentifiers}
use ara.TransactionalModel.{
  TransactionalModel, each, commit_to, commit_stop_areas, commit_stop_visits,
  commit_vehicle_journeys, commit_model,
}

-- Each manager finds what it keeps, by the id and by each identifier, and the managers with an
-- index by attribute list what has the attribute.
pub record IsSoundModel (model : MemoryModel) : Type 0 where
  pub stop_areas : IsProper model.stop_areas.store
  pub stop_visits : IsProper model.stop_visits.store
  pub visits_indexed : Visits.IsWhole model.stop_visits
  pub vehicle_journeys : IsProper model.vehicle_journeys.store
  pub journeys_indexed : Journeys.IsWhole model.vehicle_journeys
  pub lines : IsProper model.lines
  pub vehicles : IsProper model.vehicles

-- The models that a transaction saves have identifiers as the code builds them.
pub record HasIdentifiers (tx : TransactionalModel) : Type 0 where
  pub stop_areas : HaveIdentifiers tx.stop_areas.saved
  pub stop_visits : HaveIdentifiers tx.stop_visits.saved
  pub vehicle_journeys : HaveIdentifiers tx.vehicle_journeys.saved
  pub lines : HaveIdentifiers tx.lines.saved
  pub vehicles : HaveIdentifiers tx.vehicles.saved

-- What every call keeps, a loop of calls keeps.
each-keeps :
    {P M : Type 0} ⦃e : Entity M⦄ (I : P → Type 0) (call : P → M → P)
    → ((p : P) (m : M) → AreIdentifiers (e.object_ids m) → I p → I (call p m))
    → (p : P) (by : Map ModelId M) → HaveIdentifiers by
    → I p
    → I (each call p by)
unfolding each
each-keeps I call k p [] h i = i
each-keeps I call k p ((_, m) ∷ rest) h i = each-keeps I call k (call p m) rest h.1 (k p m h.0 i)

each-keeps_all :
    {P M : Type 0} (I : P → Type 0) (call : P → M → P)
    → ((p : P) (m : M) → I p → I (call p m))
    → (p : P) (by : Map ModelId M) → I p
    → I (each call p by)
unfolding each
each-keeps_all I call k p [] i = i
each-keeps_all I call k p ((_, m) ∷ rest) i = each-keeps_all I call k (call p m) rest (k p m i)

commit_to-keeps :
    {P M : Type 0} ⦃e : Entity M⦄ (I : P → Type 0) (remove save : P → M → P) (tx : Changes M)
    (p : P)
    → ((q : P) (m : M) → I q → I (remove q m))
    → ((q : P) (m : M) → AreIdentifiers (e.object_ids m) → I q → I (save q m))
    → HaveIdentifiers tx.saved
    → I p
    → I (commit_to remove save tx p)
unfolding commit_to
commit_to-keeps I remove save tx p r s h i =
    each-keeps I save s (each remove p tx.deleted) tx.saved h
      (each-keeps_all I remove r p tx.deleted i)

module _ {M : Type 0} ⦃e : Entity M⦄ where
  save_all-IsProper :
      (s : Store M) (by : Map ModelId M)
      → HaveIdentifiers by
      → IsProper s
      → IsProper (save_all s by)
  unfolding save_all
  save_all-IsProper s [] h x = x
  save_all-IsProper s ((_, m) ∷ rest) h x =
      save_all-IsProper (Store.keep s m) rest h.1 (keep-IsProper s m h.0 x)

  remove_all-IsProper : (s : Store M) (by : Map ModelId M) → IsProper s → IsProper (remove_all s by)
  unfolding remove_all
  remove_all-IsProper s [] x = x
  remove_all-IsProper s ((_, m) ∷ rest) x =
      remove_all-IsProper (Store.remove s m) rest (remove-IsProper s m x)

  commit-IsProper :
      (tx : Changes M) (s : Store M)
      → HaveIdentifiers tx.saved
      → IsProper s
      → IsProper (commit tx s)
  unfolding commit
  commit-IsProper tx s h x =
      save_all-IsProper (remove_all s tx.deleted) tx.saved h (remove_all-IsProper s tx.deleted x)

keep-IsProper_areas :
    (q : StopAreas.StopAreas) (sa : StopArea)
    → AreIdentifiers sa.object_ids
    → IsProper q.store
    → IsProper (StopAreas.keep q sa).store
unfolding StopAreas.keep
keep-IsProper_areas q sa a x = keep-IsProper q.store sa a x

remove-IsProper_areas :
    (q : StopAreas.StopAreas) (sa : StopArea)
    → IsProper q.store
    → IsProper (StopAreas.remove q sa).store
unfolding StopAreas.remove
remove-IsProper_areas q sa x = remove-IsProper q.store sa x

keep-IsProper_visits :
    (q : StopVisits.StopVisits) (sv : StopVisit)
    → AreIdentifiers sv.object_ids
    → IsProper q.store
    → IsProper (StopVisits.keep q sv).store
unfolding StopVisits.keep
keep-IsProper_visits q sv a x = keep-IsProper q.store sv a x

remove-IsProper_visits :
    (q : StopVisits.StopVisits) (sv : StopVisit)
    → IsProper q.store
    → IsProper (StopVisits.remove q sv).store
unfolding StopVisits.remove
remove-IsProper_visits q sv x = remove-IsProper q.store sv x

keep-IsProper_journeys :
    (q : VehicleJourneys.VehicleJourneys) (vj : VehicleJourney)
    → AreIdentifiers vj.object_ids
    → IsProper q.store
    → IsProper (VehicleJourneys.keep q vj).store
unfolding VehicleJourneys.keep
keep-IsProper_journeys q vj a x = keep-IsProper q.store vj a x

remove-IsProper_journeys :
    (q : VehicleJourneys.VehicleJourneys) (vj : VehicleJourney)
    → IsProper q.store
    → IsProper (VehicleJourneys.remove q vj).store
unfolding VehicleJourneys.remove
remove-IsProper_journeys q vj x = remove-IsProper q.store vj x

-- The commit of a transaction keeps a sound model sound, where the models that the transaction
-- saves have identifiers as the code builds them.
pub commit_model-IsSoundModel :
    (tx : TransactionalModel) (model : MemoryModel)
    → HasIdentifiers tx
    → IsSoundModel model
    → IsSoundModel (commit_model tx model)
unfolding commit_model commit_stop_areas commit_stop_visits commit_vehicle_journeys
commit_model-IsSoundModel tx model h x = record {
  stop_areas =
      commit_to-keeps (λ q. IsProper q.store) StopAreas.remove StopAreas.keep tx.stop_areas
        model.stop_areas remove-IsProper_areas keep-IsProper_areas h.stop_areas x.stop_areas;
  stop_visits =
      commit_to-keeps (λ q. IsProper q.store) StopVisits.remove StopVisits.keep tx.stop_visits
        model.stop_visits remove-IsProper_visits keep-IsProper_visits h.stop_visits x.stop_visits;
  visits_indexed =
      commit_to-keeps Visits.IsWhole StopVisits.remove StopVisits.keep tx.stop_visits
        model.stop_visits Visits.remove-IsWhole Visits.keep-IsWhole h.stop_visits x.visits_indexed;
  vehicle_journeys =
      commit_to-keeps (λ q. IsProper q.store) VehicleJourneys.remove VehicleJourneys.keep
        tx.vehicle_journeys model.vehicle_journeys remove-IsProper_journeys keep-IsProper_journeys
        h.vehicle_journeys x.vehicle_journeys;
  journeys_indexed =
      commit_to-keeps Journeys.IsWhole VehicleJourneys.remove VehicleJourneys.keep
        tx.vehicle_journeys model.vehicle_journeys Journeys.remove-IsWhole Journeys.keep-IsWhole
        h.vehicle_journeys x.journeys_indexed;
  lines = commit-IsProper tx.lines model.lines h.lines x.lines;
  vehicles = commit-IsProper tx.vehicles model.vehicles h.vehicles x.vehicles;
}

-- NewMemoryModel is sound.
pub empty-IsSoundModel : IsSoundModel Model.empty
empty-IsSoundModel = record {
  stop_areas = empty-IsProper;
  stop_visits = empty-IsProper;
  visits_indexed = Visits.empty-IsWhole true;
  vehicle_journeys = empty-IsProper;
  journeys_indexed = Journeys.empty-IsWhole;
  lines = empty-IsProper;
  vehicles = empty-IsProper;
}
