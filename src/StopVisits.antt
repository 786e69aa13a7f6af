-- ===== src/StopVisits.antt =====
-- model/stop_visit.go, the manager MemoryStopVisits.
-- Package sort is a parameter: `sort` stands for sort.Sort(ByTime(...)) on a slice.
-- FindFollowingByStopAreaIds is left out: it unlocks its read lock twice.
pub mod Searches
use ara.Prelude.{
  String, Bool, true, false, ◌&&◌, Option, none, some, List, [], ◌∷◌, ite, if◌then◌else◌,
  string_dec, string_key,
}
use ara.GoMap.{Map}
use ara.ObjectId.{ObjectId}
use ara.ObjectIdIndex.{ModelId}
use ara.Index
use ara.Index.{Index}
use ara.Store
use ara.Store.{Store, Found}
use ara.Store.Links.{follow, select_where}
use ara.StopAreas.{BroadcastEvent}
use ara.Schedules.{Time}
use ara.StopVisit.{StopVisit, stop_visit_entity, reference_time, is_after}

pub record StopVisits : Type 0 where
  pub store : Store StopVisit
  pub by_stop_area : Index
  pub by_vehicle_journey : Index
  pub broadcasts : Bool
  pub events : List BroadcastEvent

-- NewMemoryStopVisits, with the callback that the model sets
abbrev pub empty : Bool → StopVisits
empty broadcasts = record {
  store = Store.empty;
  by_stop_area = Index.empty;
  by_vehicle_journey = Index.empty;
  broadcasts = broadcasts;
  events = [];
}

-- Find
unfoldable pub find : StopVisits → ModelId → Option StopVisit
find manager id = Store.find manager.store id

-- FindByObjectId
unfoldable pub find_by_object_id : StopVisits → ObjectId → Found StopVisit
find_by_object_id manager o = Store.find_by_object_id manager.store o

abbrev pub event_for : StopVisit → BroadcastEvent
event_for sv = record { model_id = sv.id; model_type = "StopVisit" }

-- Save, once the stop visit has an id
unfoldable pub keep : StopVisits → StopVisit → StopVisits
keep manager sv = record {
  store = Store.keep manager.store sv;
  by_stop_area = Index.index manager.by_stop_area sv.id sv.stop_area_id;
  by_vehicle_journey = Index.index manager.by_vehicle_journey sv.id sv.vehicle_journey_id;
  broadcasts = manager.broadcasts;
  events = if manager.broadcasts then event_for sv ∷ manager.events else manager.events;
}

-- Save
unfoldable pub save : StopVisits → ModelId → StopVisit → StopVisits × StopVisit
unfolding keep
save manager uuid sv = (keep manager (Store.identified uuid sv), Store.identified uuid sv)

-- Delete
unfoldable pub remove : StopVisits → StopVisit → StopVisits
remove manager sv = record manager {
  store = Store.remove manager.store sv;
  by_stop_area = Index.remove manager.by_stop_area sv.id;
  by_vehicle_journey = Index.remove manager.by_vehicle_journey sv.id;
}

-- FindByStopAreaId, FindByVehicleJourneyId; none is the panic on a missing stop visit
unfoldable pub find_by_stop_area_id : StopVisits → ModelId → Option (List StopVisit)
find_by_stop_area_id manager id =
    follow (λ _. true) manager.store.by_identifier manager.by_stop_area id

unfoldable pub find_by_vehicle_journey_id : StopVisits → ModelId → Option (List StopVisit)
find_by_vehicle_journey_id manager id =
    follow (λ _. true) manager.store.by_identifier manager.by_vehicle_journey id

-- sv.ReferenceTime().After(now)
abbrev pub is_following : Time → StopVisit → Bool
is_following now sv = is_after (reference_time sv) now

abbrev pub sorted :
    (List StopVisit → List StopVisit) → Option (List StopVisit) → Option (List StopVisit)
sorted sort none = none
sorted sort (some l) = some (sort l)

-- FindFollowingByStopAreaId, FindFollowingByVehicleJourneyId
unfoldable pub find_following_by_stop_area_id :
    (List StopVisit → List StopVisit) → Time → StopVisits → ModelId → Option (List StopVisit)
find_following_by_stop_area_id sort now manager id =
    sorted sort (follow (is_following now) manager.store.by_identifier manager.by_stop_area id)

unfoldable pub find_following_by_vehicle_journey_id :
    (List StopVisit → List StopVisit) → Time → StopVisits → ModelId → Option (List StopVisit)
find_following_by_vehicle_journey_id sort now manager id =
    sorted sort
      (follow (is_following now) manager.store.by_identifier manager.by_vehicle_journey id)

abbrev same : String → String → Bool
same a b = ite (string_dec a b) true false

-- FindMonitoredByOriginByStopAreaId
unfoldable pub find_monitored_by_origin_by_stop_area_id :
    StopVisits → ModelId → String → List StopVisit
find_monitored_by_origin_by_stop_area_id manager id origin =
    select_where (λ sv. same sv.stop_area_id id && (sv.collected && same sv.origin origin))
      manager.store.by_identifier

-- FindAll
unfoldable pub find_all : StopVisits → List StopVisit
find_all manager = Store.find_all manager.store

-- FindAllAfter
unfoldable pub find_all_after : StopVisits → Time → List StopVisit
find_all_after manager t = select_where (is_following t) manager.store.by_identifier
