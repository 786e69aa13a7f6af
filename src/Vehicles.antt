-- ===== src/Vehicles.antt =====
-- model/vehicles.go: the Vehicle and the manager MemoryVehicles. The audit event that Save writes
-- for a new or changed vehicle is left out.
use ara.Prelude.{Bool, refl, Option, none, List, [], ite, string_dec, true, false}
use ara.ObjectId.{ObjectIds}
use ara.ObjectIdIndex.{ModelId}
use ara.Store
use ara.Store.{Entity, Store, Found}
use ara.Store.Links.{select_where}
use ara.StopArea.{Float64}
use ara.Schedules.{Time, zero_time}
use ara.Transaction.{Changes, unsaved}
use ara.Prelude.{◌++◌}

pub record Vehicle : Type 0 where
  pub object_ids : ObjectIds
  pub id : ModelId
  pub line_id : ModelId
  pub vehicle_journey_id : ModelId
  pub longitude : Float64
  pub latitude : Float64
  pub bearing : Float64
  pub recorded_at_time : Time

-- NewVehicle
abbrev pub new : Vehicle
new = record {
  object_ids = [];
  id = "";
  line_id = "";
  vehicle_journey_id = "";
  longitude = 0;
  latitude = 0;
  bearing = 0;
  recorded_at_time = zero_time;
}

-- a vehicle is handed out by value, with the same map of identifiers
instance abbrev pub vehicle_entity : Entity Vehicle
vehicle_entity = record {
  model_id = λ vehicle. vehicle.id;
  object_ids = λ vehicle. vehicle.object_ids;
  with_id = λ vehicle id. record vehicle { id = id };
  copy = λ vehicle. vehicle;
  model_id-with_id = λ vehicle id. refl;
  object_ids-with_id = λ vehicle id. refl;
  model_id-copy = λ vehicle. refl;
  object_ids-copy = λ vehicle. refl;
}

abbrev pub Vehicles : Type 0
Vehicles = Store Vehicle

-- Find
unfoldable pub find : Vehicles → ModelId → Option Vehicle
find manager id = ite (string_dec id "") none (Store.find manager id)

abbrev pub is_on_line : ModelId → Vehicle → Bool
is_on_line id vehicle = ite (string_dec vehicle.line_id id) true false

-- FindByLineId
unfoldable pub find_by_line_id : Vehicles → ModelId → List Vehicle
find_by_line_id manager id = select_where (is_on_line id) manager.by_identifier

-- FindByLineId of the transaction
unfoldable pub tx_find_by_line_id : Changes Vehicle → Vehicles → ModelId → List Vehicle
tx_find_by_line_id tx parent id =
    select_where (is_on_line id) tx.saved ++ unsaved tx (find_by_line_id parent id)
