-- ===== src/UpdateEvents.antt =====
-- model/update_event.go and the events of package model that the collectors send.
-- A SIRI element of package siri is a function from the names of its accessors to their texts. An
-- event computes its attributes and references at the first call and keeps them; here they are
-- computed at each call, to the same maps.
use ara.Prelude.{ℕ, String, Bool, Option, none, some, List, [], ◌∷◌}
use ara.ObjectId.{ObjectId, new}
use ara.ObjectIdIndex.{ModelId}
use ara.StopArea.{Float64}
use ara.Schedules.{Schedules, Time}
use ara.Attributes
use ara.Attributes.{Attributes}
use ara.References
use ara.References.{References}

abbrev pub SiriXml : Type 0
SiriXml = String → String

pub record StopAreaUpdateEvent : Type 0 where
  pub origin : String
  pub object_id : ObjectId
  pub parent_object_id : ObjectId
  pub name : String
  pub collected_always : Bool
  pub longitude : Float64
  pub latitude : Float64

pub record LineUpdateEvent : Type 0 where
  pub origin : String
  pub object_id : ObjectId
  pub name : String

pub record VehicleJourneyUpdateEvent : Type 0 where
  pub origin : String
  pub object_id : ObjectId
  pub line_object_id : ObjectId
  pub origin_ref : String
  pub origin_name : String
  pub destination_ref : String
  pub destination_name : String
  pub direction : String
  pub monitored : Bool
  pub object_id_kind : String
  pub siri_xml : Option SiriXml

pub record StopVisitUpdateEvent : Type 0 where
  pub origin : String
  pub object_id : ObjectId
  pub stop_area_object_id : ObjectId
  pub vehicle_journey_object_id : ObjectId
  pub data_frame_ref : String
  pub passage_order : ℕ
  pub monitored : Bool
  pub vehicle_at_stop : Bool
  pub schedules : Schedules
  pub departure_status : String
  pub arrival_status : String
  pub recorded_at : Time
  pub object_id_kind : String
  pub siri_xml : Option SiriXml

pub record VehicleUpdateEvent : Type 0 where
  pub object_id : ObjectId
  pub vehicle_journey_object_id : ObjectId
  pub longitude : Float64
  pub latitude : Float64
  pub bearing : Float64

pub record StatusUpdateEvent : Type 0 where
  pub stop_area_id : ModelId
  pub partner : String
  pub status : Bool

pub record NotCollectedUpdateEvent : Type 0 where
  pub object_id : ObjectId

-- EventKind, with the event itself
pub data UpdateEvent : Type 0 where
  stop_area_event : StopAreaUpdateEvent → UpdateEvent
  line_event : LineUpdateEvent → UpdateEvent
  vehicle_journey_event : VehicleJourneyUpdateEvent → UpdateEvent
  stop_visit_event : StopVisitUpdateEvent → UpdateEvent
  vehicle_event : VehicleUpdateEvent → UpdateEvent
  status_event : StatusUpdateEvent → UpdateEvent
  not_collected_event : NotCollectedUpdateEvent → UpdateEvent

-- a row of calls attributes.Set(name, SiriXML.name())
unfoldable pub set_attributes : SiriXml → List String → Attributes → Attributes
set_attributes xml [] attributes = attributes
set_attributes xml (name ∷ names) attributes =
    set_attributes xml names (Attributes.put attributes name (xml name))

-- a row of calls references.SetObjectId(name, NewObjectID(kind, SiriXML.name()))
unfoldable pub set_references : SiriXml → String → List String → References → References
set_references xml kind [] references = references
set_references xml kind (name ∷ names) references =
    set_references xml kind names (References.set_object_id references name (new kind (xml name)))

abbrev pub attributes_of : List String → Option SiriXml → Attributes
attributes_of names none = Attributes.empty
attributes_of names (some xml) = set_attributes xml names Attributes.empty

abbrev pub references_of : List String → String → Option SiriXml → References
references_of names kind none = References.empty
references_of names kind (some xml) = set_references xml kind names References.empty

abbrev pub stop_visit_attribute_names : List String
stop_visit_attribute_names =
    "Delay" ∷ "ActualQuayName" ∷ "AimedHeadwayInterval" ∷ "ArrivalPlatformName"
    ∷ "ArrivalProximyTest" ∷ "DepartureBoardingActivity" ∷ "DeparturePlatformName"
    ∷ "DestinationDisplay" ∷ "DistanceFromStop" ∷ "ExpectedHeadwayInterval" ∷ "NumberOfStopsAway"
    ∷ "PlatformTraversal" ∷ []

abbrev pub vehicle_journey_attribute_names : List String
vehicle_journey_attribute_names =
    "Delay" ∷ "Bearing" ∷ "InPanic" ∷ "InCongestion" ∷ "SituationRef" ∷ "DirectionName"
    ∷ "FirstOrLastJourney" ∷ "HeadwayService" ∷ "JourneyNote" ∷ "JourneyPatternName"
    ∷ "MonitoringError" ∷ "Occupancy" ∷ "OriginAimedDepartureTime" ∷ "DestinationAimedArrivalTime"
    ∷ "ProductCategoryRef" ∷ "ServiceFeatureRef" ∷ "TrainNumberRef" ∷ "VehicleFeature"
    ∷ "VehicleMode" ∷ "ViaPlaceName" ∷ "VehicleJourneyName" ∷ "DirectionRef" ∷ "DestinationName"
    ∷ "OriginName" ∷ []

abbrev pub vehicle_journey_reference_names : List String
vehicle_journey_reference_names =
    "PlaceRef" ∷ "JourneyPatternRef" ∷ "RouteRef" ∷ "DestinationRef" ∷ "OriginRef" ∷ []

-- StopVisitUpdateEvent.Attributes, References
unfoldable pub stop_visit_attributes : StopVisitUpdateEvent → Attributes
stop_visit_attributes event = attributes_of stop_visit_attribute_names event.siri_xml

unfoldable pub stop_visit_references : StopVisitUpdateEvent → References
stop_visit_references event = references_of ("OperatorRef" ∷ []) event.object_id_kind event.siri_xml

-- VehicleJourneyUpdateEvent.Attributes, References
unfoldable pub vehicle_journey_attributes : VehicleJourneyUpdateEvent → Attributes
vehicle_journey_attributes event = attributes_of vehicle_journey_attribute_names event.siri_xml

unfoldable pub vehicle_journey_references : VehicleJourneyUpdateEvent → References
vehicle_journey_references event =
    references_of vehicle_journey_reference_names event.object_id_kind event.siri_xml
