-- ===== src/Lib.antt =====
-- The core of ara, a server that collects public transport times from partners and broadcasts them.
--
-- A referential holds a model (package model): managers of stop areas, lines, stop visits and so on,
-- each a map by id with an index by identifier, and a transaction in front of them that keeps changes
-- apart until they are committed. A referential also has partners (package core), found by their
-- credentials, each with its subscriptions. Package cache keeps what is costly to build.
-- The collect manager chooses the partner that is asked about a stop area and hands the events that
-- come back to the update managers, which change the model, each event in a transaction of its own.
-- Two guardians run beside them: one checks the status of the partners and ends their subscriptions,
-- the other decides what is collected next and simulates visits that are no longer collected.
--
-- Prelude, GoMap: shared names; Go's maps as association lists with their loops.
-- ObjectId: model/objectid.go. An identifier has a kind and a value; a model has one of each kind.
-- ObjectIdIndex: model/objectid_index.go, Index, Find, Delete. Lookups and Effect say what its loops
--   and operations do, Refinement and History compare calls with a contract.
-- Index: model/index.go, from an attribute to the models that have it, with removeFromIndexable.
-- Store: Find, FindByObjectId, FindAll, Save, Delete, which the managers of package model share
--   (model/lines.go and the like), over a record Entity of what they ask of a model. Histories are
--   calls on a new manager.
-- StopArea, StopAreas: model/stop_area.go, the record and its manager, an instance of Store.
-- Origins, Attributes, References: model/stop_area_origin.go, model/attributes.go, model/reference.go,
--   model/references.go, model/stop_area_line_ids.go.
-- Schedules: model/stop_visit_schedule.go and the reference times of model/stop_visit.go.
-- Transaction: model/transactional_stop_areas.go and its siblings, model/transaction.go, over a Store.
-- TransactionalStopAreas: the searches of model/transactional_stop_areas.go that only stop areas have.
-- Credentials: core/local_credentials_index.go.
-- CollectSettings: core/collect_settings.go, with CanCollect of core/partner.go and the reading of the
--   settings in core/partner_settings.go.
-- Cache: cache/cached_item.go, cache/cache_table.go.
-- Line: model/lines.go, a plain Store.
-- VehicleJourneys: model/vehicle_journey.go, a Store with an Index.
-- StopVisit, StopVisits: model/stop_visit.go and model/stop_visit_selector.go, a Store with two Index
--   (Store.Links has the searches that follow an index). A slice is sorted by an argument `sort`.
-- Subscription, Subscriptions: core/subscription.go.
-- LastStates: core/last_states.go. An int64 is its value modulo 2 ^ 64.
-- Vehicles: model/vehicle.go, a plain Store. Operators, Situations: model/operator.go and
--   model/situation.go, over Unindexed, a manager that searches identifiers without an index, with the
--   transactions model/transactional_operators.go and model/transactional_situations.go.
-- Channel: the sends of model/model_interface.go to the broadcasters.
-- Model: model/model_interface.go. TransactionalModel: model/transactional_model.go, the commit of
--   all managers (Soundness: what it keeps). Store.Keeping has what Save and Delete keep of a Store.
-- UpdateEvents: model/update_event.go and the events of package model.
-- Updates: model/update_manager.go, the searches and updateStatus; Areas, Journeys, Visits and
--   Dispatch the handlers. Soundness, JourneyRuns, VisitRuns, Runs go through all handlers, Marks and
--   Reported are about updateStatus, Stored about updateLine, Lost about updateStopVisit, Loops about a
--   stop area that is its own parent. StopAreas.Climbed says which stop areas findAscendants lists.
-- SituationUpdates: model/situation_update_manager.go.
-- PartnerSettings, Connectors, Partner, Partners: core/partner_settings.go and core/partner.go.
--   Partners.Owners is about the credentials. Errors, Partners.Validation and Referentials.Validation:
--   core/errors.go and the Validate of core/partner.go and core/referential.go.
-- PartnersGuardian: core/partner_guardian.go; Subscriptions.Terminated has its loops over
--   subscriptions.
-- CollectManager: core/collect_manager.go. ModelGuardian: core/model_guardian.go.
-- StopMonitoringBroadcaster: core/siri_stop_monitoring_subscription_broadcaster.go, what is to be sent
--   to whom. Events has its handler; Lists, Tracked, Served and Listing say whom checkEvent lists.
-- Referentials: core/referential.go, with the update subscribers of its collect manager.
-- Examples: tests, and the theorems at concrete inputs.
--
-- Conventions. A method with a pointer receiver is a function that returns the changed value. A map
-- is an association list, and a loop over a map visits its entries in the order of the list: Go leaves
-- that order open, so statements are about every list, where needed with distinct keys. A pointer that
-- may be nil is an Option, and the panic on a nil one is the result `none` or `panic`. A time.Time or
-- a time.Duration is a number of nanoseconds, a float64 its bits; where the code compares two times
-- with ==, a time is a Stamp (Schedules), with its location and monotonic reading. A new UUID, the clock's time and
-- what a loader returns are arguments. Locks are left out: an operation is one step.
--
-- Fuel. The recursions of model/stop_area.go along parents and referents have no bound in the code.
-- They take a depth here and give `none` beyond it; a bound on the depth is proved from heights.
--
-- Not modelled: JSON, XML, SQL and CSV, HTTP, logs and audit events; the connectors of package core
-- and packages siri and api, which build and read messages; the other broadcasters, the sending of
-- notifications and the broadcast manager; the factories of the connectors; Start and Stop, goroutines
-- and timers; the identifier generators; the lists of stop visits and vehicle journeys of a
-- transaction.
pub mod Prelude
pub mod GoMap
pub mod ObjectId
pub mod ObjectIdIndex
pub mod Index
pub mod Store
pub mod Schedules
pub mod Origins
pub mod Attributes
pub mod References
pub mod StopArea
pub mod StopAreas
pub mod Line
pub mod VehicleJourneys
pub mod StopVisit
pub mod StopVisits
pub mod Transaction
pub mod TransactionalStopAreas
pub mod Credentials
pub mod CollectSettings
pub mod Cache
pub mod Subscription
pub mod Subscriptions
pub mod LastStates
pub mod Unindexed
pub mod Operators
pub mod Situations
pub mod Vehicles
pub mod Channel
pub mod Model
pub mod TransactionalModel
pub mod UpdateEvents
pub mod Updates
pub mod SituationUpdates
pub mod PartnerSettings
pub mod Connectors
pub mod Partner
pub mod Partners
pub mod PartnersGuardian
pub mod CollectManager
pub mod ModelGuardian
pub mod Referentials
pub mod StopMonitoringBroadcaster
pub mod Errors
mod Examples
