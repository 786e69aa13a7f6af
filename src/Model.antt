-- ===== src/Model.antt =====
-- model/model_interface.go, the MemoryModel: the managers of a referential.
-- Left out: the date, the name of the referential and the two channels that the broadcasts go to.
use ara.Prelude.{true}
use ara.Store
use ara.Store.{Store}
use ara.StopAreas
use ara.StopAreas.{StopAreas}
use ara.StopVisits
use ara.StopVisits.{StopVisits}
use ara.VehicleJourneys
use ara.VehicleJourneys.{VehicleJourneys}
use ara.Line.{Line}
use ara.Situations
use ara.Situations.{Situations}
use ara.Operators
use ara.Operators.{Operators}
use ara.Vehicles.{Vehicles}

pub record MemoryModel : Type 0 where
  pub stop_areas : StopAreas
  pub stop_visits : StopVisits
  pub vehicle_journeys : VehicleJourneys
  pub lines : Store Line
  pub vehicles : Vehicles
  pub situations : Situations
  pub operators : Operators

-- NewMemoryModel
abbrev pub empty : MemoryModel
empty = record {
  stop_areas = StopAreas.empty true;
  stop_visits = StopVisits.empty true;
  vehicle_journeys = VehicleJourneys.empty;
  lines = Store.empty;
  vehicles = Store.empty;
  situations = Situations.empty true;
  operators = Operators.empty;
}
