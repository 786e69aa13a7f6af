-- ===== src/Partner.antt =====
-- core/partner.go, the Partner: its state and its own operations.
-- A connector is of some type `C`, and the last states of a subscription of some type `S`. Left out
-- of the record: the lock, the context, the cache of GTFS feeds and the back pointer to the manager.
use ara.Prelude.{
  ℕ, ◌+◌, ◌*◌, String, Bool, Option, none, some, List, [], ◌∷◌, ite, if◌then◌else◌, string_key,
  dec_lt,
}
use ara.GoMap.{Map, get}
use ara.Credentials.{PartnerId}
use ara.Connectors.{has_connector, clean, create_connectors, first_of}
use ara.Schedules.{Time, zero_time, Stamp, zero_stamp}
use ara.CollectSettings.{include, include_line, can_collect}
use ara.PartnerSettings.{
  Settings, set_settings_definition, settings_definition, partner_collect_settings,
}
use ara.Subscriptions
use ara.Subscriptions.{Subscriptions}

abbrev pub Operationnal : Type 0
Operationnal = String

abbrev pub unknown : Operationnal
unknown = "unknown"

abbrev pub up : Operationnal
up = "up"

abbrev pub down : Operationnal
down = "down"

pub record PartnerStatus : Type 0 where
  pub operationnal_status : Operationnal
  pub service_started_at : Stamp

pub record Partner (C S : Type 0) : Type 0 where
  pub id : PartnerId
  pub slug : String
  pub name : String
  pub status : PartnerStatus
  pub settings : Settings
  pub connector_types : List String
  pub connectors : Map String C
  pub discovered_stop_areas : List String
  pub started_at : Time
  pub last_discovery : Time
  pub last_push : Time
  pub subscriptions : Subscriptions S

-- the definition that the API reads and writes; none is a nil map of settings
pub record PartnerDefinition : Type 0 where
  pub id : PartnerId
  pub slug : String
  pub name : String
  pub settings : Option Settings
  pub connector_types : List String

abbrev pub five_minutes : ℕ
five_minutes = 300 * 1000000000

abbrev pub check_status_client_type : String
check_status_client_type = "siri-check-status-client"

abbrev pub test_check_status_client_type : String
test_check_status_client_type = "test-check-status-client"

abbrev pub push_collector : String
push_collector = "push-collector"

-- the loop of RegisterDiscoveredStopAreas, into a set
unfoldable pub register_all : List String → List String → List String
unfolding include
register_all discovered [] = discovered
register_all discovered (stop ∷ stops) =
    register_all (if include discovered stop then discovered else stop ∷ discovered) stops

module _ {C S : Type 0} where
  -- New of the manager
  abbrev pub new : String → Partner C S
  new slug = record {
    id = "";
    slug = slug;
    name = "";
    status = record { operationnal_status = unknown; service_started_at = zero_stamp };
    settings = [];
    connector_types = [];
    connectors = [];
    discovered_stop_areas = [];
    started_at = zero_time;
    last_discovery = zero_time;
    last_push = zero_time;
    subscriptions = [];
  }

  -- Definition
  unfoldable pub definition : Partner C S → PartnerDefinition
  definition partner = record {
    id = partner.id;
    slug = partner.slug;
    name = partner.name;
    settings = some (settings_definition partner.settings);
    connector_types = partner.connector_types;
  }

  -- Connector
  abbrev pub connector : Partner C S → String → Option C
  connector partner kind = get partner.connectors kind

  -- cleanConnectors; `sort` is sort.Strings
  unfoldable pub clean_connectors : (List String → List String) → Partner C S → Partner C S
  unfolding clean
  clean_connectors sort partner = record partner {
    connector_types = sort partner.connector_types;
    connectors = clean (sort partner.connector_types) partner.connectors partner.connectors;
  }

  -- RefreshConnectors
  unfoldable pub refresh_connectors :
      (List String → List String) → (String → Option C) → Partner C S → Partner C S
  unfolding create_connectors clean_connectors
  refresh_connectors sort factory partner = clean_connectors sort (record partner {
    connectors = create_connectors factory partner.connector_types partner.connectors;
  })

  -- SetDefinition, after APIPartner.Validate, whose factories are those of the types that have one
  unfoldable pub set_definition :
      (List String → List String)
      → (String → Option C)
      → Partner C S
      → PartnerDefinition
      → Partner C S
  unfolding set_settings_definition create_connectors clean_connectors
  set_definition sort factory partner api = clean_connectors sort (record partner {
    id = api.id;
    slug = api.slug;
    name = api.name;
    settings = set_settings_definition partner.settings api.settings;
    connector_types = api.connector_types;
    status = record partner.status { operationnal_status = unknown };
    connectors = create_connectors factory api.connector_types partner.connectors;
  })

  -- CheckStatusClient
  unfoldable pub check_status_client : Partner C S → Option C
  check_status_client partner =
      first_of (connector partner check_status_client_type)
        (connector partner test_check_status_client_type)

  -- hasPushCollector
  abbrev pub has_push_collector : Partner C S → Bool
  has_push_collector partner = has_connector partner.connectors push_collector

  -- StopMonitoringRequestCollector
  unfoldable pub stop_monitoring_request_collector : Partner C S → Option C
  stop_monitoring_request_collector partner =
      first_of (connector partner "siri-stop-monitoring-request-collector")
        (connector partner "test-stop-monitoring-request-collector")

  -- StopMonitoringSubscriptionCollector
  abbrev pub stop_monitoring_subscription_collector : Partner C S → Option C
  stop_monitoring_subscription_collector partner =
      connector partner "siri-stop-monitoring-subscription-collector"

  -- GeneralMessageRequestCollector, GeneralMessageSubscriptionCollector
  abbrev pub general_message_request_collector : Partner C S → Option C
  general_message_request_collector partner =
      connector partner "siri-general-message-request-collector"

  abbrev pub general_message_subscription_collector : Partner C S → Option C
  general_message_subscription_collector partner =
      connector partner "siri-general-message-subscription-collector"

  -- checkPushStatus
  unfoldable pub check_push_status : Time → Partner C S → PartnerStatus
  check_push_status now partner = record {
    operationnal_status = ite (dec_lt (partner.last_push + five_minutes) now) down up;
    service_started_at = zero_stamp;
  }

  -- CheckStatus; `ask` is Status of the check status client
  unfoldable pub status_from : (C → PartnerStatus) → Time → Partner C S → Option C → PartnerStatus
  unfolding check_push_status
  status_from ask now partner (some client) = ask client
  status_from ask now partner none =
      if has_push_collector partner
      then check_push_status now partner
      else record { operationnal_status = unknown; service_started_at = zero_stamp }

  unfoldable pub check_status : (C → PartnerStatus) → Time → Partner C S → PartnerStatus
  unfolding status_from check_status_client
  check_status ask now partner = status_from ask now partner (check_status_client partner)

  -- Pushed
  abbrev pub pushed : Time → Partner C S → Partner C S
  pushed now partner = record partner { last_push = now }

  -- CanCollect, CanCollectLine
  unfoldable pub partner_can_collect : Partner C S → String → List String → Bool
  unfolding partner_collect_settings can_collect
  partner_can_collect partner stop_id line_ids =
      can_collect (partner_collect_settings partner.settings) partner.discovered_stop_areas stop_id
        line_ids

  unfoldable pub can_collect_line : Partner C S → String → Bool
  unfolding partner_collect_settings include_line
  can_collect_line partner line_id =
      include_line (partner_collect_settings partner.settings) line_id

  -- RegisterDiscoveredStopAreas
  unfoldable pub register_discovered_stop_areas : Partner C S → List String → Partner C S
  unfolding partner_collect_settings register_all
  register_discovered_stop_areas partner stops =
      if (partner_collect_settings partner.settings).use_discovered
      then record partner {
        discovered_stop_areas = register_all partner.discovered_stop_areas stops;
      }
      else partner

  -- CancelSubscriptions, CancelBroadcastSubscriptions
  unfoldable pub cancel_subscriptions : Partner C S → Partner C S
  cancel_subscriptions partner = record partner {
    subscriptions = Subscriptions.cancel_subscriptions partner.subscriptions;
  }

  unfoldable pub cancel_broadcast_subscriptions : Partner C S → Partner C S
  cancel_broadcast_subscriptions partner = record partner {
    subscriptions = Subscriptions.cancel_broadcast_subscriptions partner.subscriptions;
  }

  -- Discover, its effect on the partner
  abbrev pub discovered_at : Time → Partner C S → Partner C S
  discovered_at now partner = record partner { last_discovery = now }
