-- ===== src/Updates.antt =====
-- model/update_manager.go: what an event of a collector changes in the model, each in a transaction.
-- `none` is a panic on a missing model, or a walk along parents and referents that does not end
-- within `depth`: what is proved of an end excludes both, and Loops tells the second from the first.
-- Parameters: the hash of package crypto/sha1, the UUIDs and the clock.
-- A transaction that is left open without a commit has no effect on the model.
pub mod Marks
pub mod Reported
pub mod Soundness
pub mod JourneyRuns
pub mod VisitRuns
pub mod Runs
pub mod Lost
pub mod Loops
pub mod Stored
pub mod Areas
pub mod Journeys
pub mod Visits
pub mod Dispatch
use ara.Prelude.{
  ℕ, String, Bool, true, false, not, ◌&&◌, Option, none, some, List, [], ◌∷◌, if◌then◌else◌,
  string_key,
}
use ara.GoMap.{get}
use ara.ObjectId.{ObjectId, ObjectIds, new, set_object_id}
use ara.ObjectIdIndex.{ModelId}
use ara.Store.{Found, found, missing, panic}
use ara.Schedules.{Time, is_zero, include, merge}
use ara.Origins.{or_false}
use ara.Attributes
use ara.Attributes.{Attributes}
use ara.References
use ara.References.{is_blank, add}
use ara.StopArea
use ara.StopArea.{StopArea, stop_area_entity, set_partner_status}
use ara.StopVisit
use ara.StopVisit.{StopVisit, stop_visit_entity, not_collected, collect_at}
use ara.VehicleJourneys
use ara.VehicleJourneys.{VehicleJourney, vehicle_journey_entity, line}
use ara.Line
use ara.Line.{Line, line_entity}
use ara.Vehicles.{Vehicle, vehicle_entity}
use ara.Transaction
use ara.Transaction.{Changes, no_changes}
use ara.TransactionalStopAreas
use ara.Model.{MemoryModel}
use ara.TransactionalModel.{begin, commit_model}
use ara.UpdateEvents.{
  StopAreaUpdateEvent, LineUpdateEvent, VehicleJourneyUpdateEvent, StopVisitUpdateEvent,
  StatusUpdateEvent, stop_visit_attributes, stop_visit_references, vehicle_journey_attributes,
  vehicle_journey_references,
}

-- `m, ok := FindByObjectId(o)`, with what follows for a model that is missing or found
abbrev pub on_found {ℓ} : {M : Type 0} {R : Type ℓ} → Found M → Option R → (M → Option R) → Option R
on_found (found m) absent k = k m
on_found missing absent k = absent
on_found panic absent k = none

abbrev pub bind {ℓ} : {A B : Type ℓ} → Option A → (A → Option B) → Option B
bind none k = none
bind (some a) k = k a

abbrev pub differs : Bool → Bool → Bool
differs true b = not b
differs false b = b

-- the loop of updateStatus and updateMonitoredStopArea; the stop areas found have an id
unfoldable pub mark_all : String → Bool → Changes StopArea → List StopArea → Changes StopArea
mark_all partner status tx [] = tx
mark_all partner status tx (sa ∷ sas) =
    mark_all partner status (Transaction.save tx "" (set_partner_status sa partner status)).0 sas

unfoldable pub commit_marks : MemoryModel → String → Bool → List StopArea → MemoryModel
commit_marks model partner status ascendants =
    commit_model (record begin { stop_areas = mark_all partner status no_changes ascendants }) model

-- updateMonitoredStopArea
unfoldable pub update_monitored_stop_area :
    ℕ → MemoryModel → ModelId → String → Bool → Option MemoryModel
update_monitored_stop_area depth model id partner status =
    bind (TransactionalStopAreas.find_ascendants depth no_changes model.stop_areas id)
      (λ ascendants. some (commit_marks model partner status ascendants))

-- updateStatus
unfoldable pub update_status : ℕ → MemoryModel → StatusUpdateEvent → Option MemoryModel
update_status depth model event =
    bind
      (TransactionalStopAreas.find_ascendants depth no_changes model.stop_areas event.stop_area_id)
      (λ ascendants. some (commit_marks model event.partner event.status ascendants))

abbrev pub find_stop_area : MemoryModel → ObjectId → Found StopArea
find_stop_area model o = Transaction.find_by_object_id no_changes model.stop_areas.store o

abbrev pub find_line : MemoryModel → ObjectId → Found Line
find_line model o = Transaction.find_by_object_id no_changes model.lines o

abbrev pub find_vehicle_journey : MemoryModel → ObjectId → Found VehicleJourney
find_vehicle_journey model o =
    Transaction.find_by_object_id no_changes model.vehicle_journeys.store o

abbrev pub find_stop_visit : MemoryModel → ObjectId → Found StopVisit
find_stop_visit model o = Transaction.find_by_object_id no_changes model.stop_visits.store o

abbrev pub find_vehicle : MemoryModel → ObjectId → Found Vehicle
find_vehicle model o = Transaction.find_by_object_id no_changes model.vehicles o

-- the identifiers that a new model gets from an event
unfoldable pub default_identifiers : (String → String) → ObjectId → ObjectIds
default_identifiers hash o = set_object_id (set_object_id [] o) (new "_default" (hash o.value))
