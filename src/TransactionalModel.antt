-- ===== src/TransactionalModel.antt =====
-- model/transactional_model.go: a transaction on each manager of a model, committed together.
pub mod Soundness
use ara.Prelude.{[], ◌∷◌}
use ara.GoMap.{Map}
use ara.ObjectIdIndex.{ModelId}
use ara.StopArea.{StopArea, stop_area_entity}
use ara.StopAreas
use ara.StopVisit.{StopVisit, stop_visit_entity}
use ara.StopVisits
use ara.VehicleJourneys.{VehicleJourney, vehicle_journey_entity}
use ara.VehicleJourneys
use ara.Line.{Line, line_entity}
use ara.Vehicles.{Vehicle, vehicle_entity}
use ara.Situations.{Situation, situation_entity}
use ara.Situations
use ara.Operators.{Operator, operator_entity}
use ara.Unindexed
use ara.Model.{MemoryModel}
use ara.Transaction.{Changes, no_changes, commit, rollback}

pub record TransactionalModel : Type 0 where
  pub lines : Changes Line
  pub situations : Changes Situation
  pub stop_areas : Changes StopArea
  pub stop_visits : Changes StopVisit
  pub vehicle_journeys : Changes VehicleJourney
  pub operators : Changes Operator
  pub vehicles : Changes Vehicle

-- NewTransactionalModel
abbrev pub begin : TransactionalModel
begin = record {
  lines = no_changes;
  situations = no_changes;
  stop_areas = no_changes;
  stop_visits = no_changes;
  vehicle_journeys = no_changes;
  operators = no_changes;
  vehicles = no_changes;
}

-- a loop of Commit: a call of the manager below for each model of the map
unfoldable pub each : {P M : Type 0} → (P → M → P) → P → Map ModelId M → P
each call parent [] = parent
each call parent ((_, m) ∷ rest) = each call (call parent m) rest

-- Commit, over Delete and Save of the manager below
unfoldable pub commit_to : {P M : Type 0} → (P → M → P) → (P → M → P) → Changes M → P → P
commit_to remove save tx parent = each save (each remove parent tx.deleted) tx.saved

-- The models saved have an id by now, so the managers give them no new one.
unfoldable pub commit_stop_areas : Changes StopArea → StopAreas.StopAreas → StopAreas.StopAreas
commit_stop_areas = commit_to StopAreas.remove StopAreas.keep

unfoldable pub commit_stop_visits :
    Changes StopVisit → StopVisits.StopVisits → StopVisits.StopVisits
commit_stop_visits = commit_to StopVisits.remove StopVisits.keep

unfoldable pub commit_vehicle_journeys :
    Changes VehicleJourney → VehicleJourneys.VehicleJourneys → VehicleJourneys.VehicleJourneys
commit_vehicle_journeys = commit_to VehicleJourneys.remove VehicleJourneys.keep

unfoldable pub commit_situations : Changes Situation → Situations.Situations → Situations.Situations
commit_situations = commit_to Situations.remove Situations.keep

unfoldable pub commit_operators : Changes Operator → Map ModelId Operator → Map ModelId Operator
commit_operators = commit_to Unindexed.remove Unindexed.keep

-- Commit; no manager's Commit fails, so every one of them is reached
unfoldable pub commit_model : TransactionalModel → MemoryModel → MemoryModel
commit_model tx model = record {
  stop_areas = commit_stop_areas tx.stop_areas model.stop_areas;
  stop_visits = commit_stop_visits tx.stop_visits model.stop_visits;
  vehicle_journeys = commit_vehicle_journeys tx.vehicle_journeys model.vehicle_journeys;
  lines = commit tx.lines model.lines;
  situations = commit_situations tx.situations model.situations;
  operators = commit_operators tx.operators model.operators;
  vehicles = commit tx.vehicles model.vehicles;
}

-- Rollback
abbrev pub rollback_model : TransactionalModel → TransactionalModel
rollback_model tx = record {
  lines = rollback tx.lines;
  situations = rollback tx.situations;
  stop_areas = rollback tx.stop_areas;
  stop_visits = rollback tx.stop_visits;
  vehicle_journeys = rollback tx.vehicle_journeys;
  operators = rollback tx.operators;
  vehicles = rollback tx.vehicles;
}
