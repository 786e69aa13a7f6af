-- ===== src/VehicleJourneys.antt =====
-- model/vehicle_journey.go: the VehicleJourney and the manager MemoryVehicleJourneys.
pub mod Searches
use ara.Prelude.{String, ◌≡◌, refl, Bool, true, false, Option, none, some, List, [], string_key}
use ara.ObjectId.{ObjectId, ObjectIds}
use ara.ObjectIdIndex.{ModelId}
use ara.Index
use ara.Index.{Index}
use ara.Store
use ara.Store.{Entity, Store, Found}
use ara.Store.Links.{follow}
use ara.Attributes
use ara.Attributes.{Attributes}
use ara.References
use ara.References.{References}
use ara.Line.{Line, line_entity}

pub record VehicleJourney : Type 0 where
  pub object_ids : ObjectIds
  pub origin : String
  pub id : ModelId
  pub line_id : ModelId
  pub name : String
  pub origin_name : String
  pub destination_name : String
  pub monitored : Bool
  pub attributes : Attributes
  pub references : References

-- NewVehicleJourney
abbrev pub new : VehicleJourney
new = record {
  object_ids = [];
  origin = "";
  id = "";
  line_id = "";
  name = "";
  origin_name = "";
  destination_name = "";
  monitored = false;
  attributes = Attributes.empty;
  references = References.empty;
}

-- copy: new maps for the attributes and references, the same map of identifiers
unfoldable pub copy : VehicleJourney → VehicleJourney
copy vj = record vj {
  attributes = Attributes.copy vj.attributes;
  references = References.copy vj.references;
}

pub id-copy : (vj : VehicleJourney) → (copy vj).id ≡ vj.id
unfolding copy
id-copy vj = refl

pub object_ids-copy : (vj : VehicleJourney) → (copy vj).object_ids ≡ vj.object_ids
unfolding copy
object_ids-copy vj = refl

instance abbrev pub vehicle_journey_entity : Entity VehicleJourney
vehicle_journey_entity = record {
  model_id = λ vj. vj.id;
  object_ids = λ vj. vj.object_ids;
  with_id = λ vj id. record vj { id = id };
  copy = copy;
  model_id-with_id = λ vj id. refl;
  object_ids-with_id = λ vj id. refl;
  model_id-copy = id-copy;
  object_ids-copy = object_ids-copy;
}

-- Line, in the lines of the model; none for a nil model is the first argument
unfoldable pub line : Option (Store Line) → VehicleJourney → Option Line
line none vj = none
line (some lines) vj = Store.find lines vj.line_id

pub record VehicleJourneys : Type 0 where
  pub store : Store VehicleJourney
  pub by_line : Index

-- NewMemoryVehicleJourneys
abbrev pub empty : VehicleJourneys
empty = record { store = Store.empty; by_line = Index.empty }

-- Find
unfoldable pub find : VehicleJourneys → ModelId → Option VehicleJourney
find manager id = Store.find manager.store id

-- FindByObjectId
unfoldable pub find_by_object_id : VehicleJourneys → ObjectId → Found VehicleJourney
find_by_object_id manager o = Store.find_by_object_id manager.store o

-- FindByLineId; none is the panic on a missing vehicle journey
unfoldable pub find_by_line_id : VehicleJourneys → ModelId → Option (List VehicleJourney)
find_by_line_id manager id = follow (λ _. true) manager.store.by_identifier manager.by_line id

-- FindAll
unfoldable pub find_all : VehicleJourneys → List VehicleJourney
find_all manager = Store.find_all manager.store

-- Save, once the vehicle journey has an id
unfoldable pub keep : VehicleJourneys → VehicleJourney → VehicleJourneys
keep manager vj = record {
  store = Store.keep manager.store vj;
  by_line = Index.index manager.by_line vj.id vj.line_id;
}

-- Save
unfoldable pub save : VehicleJourneys → ModelId → VehicleJourney → VehicleJourneys × VehicleJourney
unfolding keep
save manager uuid vj = (keep manager (Store.identified uuid vj), Store.identified uuid vj)

-- Delete
unfoldable pub remove : VehicleJourneys → VehicleJourney → VehicleJourneys
remove manager vj = record {
  store = Store.remove manager.store vj;
  by_line = Index.remove manager.by_line vj.id;
}
