-- ===== src/Examples/Monitoring.antt =====
-- The stop monitoring broadcaster at a concrete stop visit.
use ara.Prelude.{String, none, some, Option, [], ◌∷◌, string_key}
use ara.StopVisit
use ara.StopVisit.{StopVisit}
use ara.StopAreas
use ara.TransactionalStopAreas
use ara.VehicleJourneys
use ara.LastStates.{Groups}
use ara.Subscription.{Resource, text}
use ara.StopMonitoringBroadcaster.{MonitoringSubscription, MonitoringSubscriptions, LastState}
use ara.Examples.Samples.{quay}

abbrev watched : Resource LastState
watched = record {
  reference = record { object_id = some quay; type_name = "StopArea" };
  retry_count = 0;
  subscribed_at = 1;
  subscribed_until = 100;
  last_states = [];
  resources_options = [];
}

abbrev watching : MonitoringSubscription
watching = record {
  id = "s1";
  kind = "StopMonitoringBroadcast";
  external_id = "ext";
  resources_by_object_id = (text quay, watched) ∷ [];
  subscription_options = [];
}

abbrev subscribed : MonitoringSubscriptions
subscribed = ("s1", watching) ∷ []

abbrev passing : StopVisit
passing = record StopVisit.new { id = "sv1"; origin = "partner2"; stop_area_id = "sa1" }

abbrev unmatched : String → Option Groups
unmatched s = none
