-- ===== src/PartnerSettings.antt =====
-- core/partner_settings.go: the settings of a partner, and what is read from them.
-- Parameters stand for package strconv (ParseBool and Atoi, each with the value that it gives beside
-- an error) and for time.ParseDuration. The generators of identifiers are left out.
use ara.Prelude.{
  ℕ, ◌≤◌, arith, ◌*◌, String, ◌≡◌, Bool, true, false, not, ◌&&◌, Option, none, some, ite,
  if◌then◌else◌, string_dec, string_key, dec_lt, ℕ_discrete, List, [],
}
use ara.GoMap.{Map, get, set, IsDistinct}
use ara.GoMap.Loops.{fill, get-fill, filled}
use ara.Subscription.{append, or_blank}
use ara.Cache.{min_cache_life_span, default_cache_life_span}
use ara.CollectSettings.{CollectSettings, collect_settings, trimmed_slice}

abbrev pub Settings : Type 0
Settings = Map String String

abbrev pub local_credential : String
local_credential = "local_credential"

abbrev pub local_credentials : String
local_credentials = "local_credentials"

abbrev pub remote_credential : String
remote_credential = "remote_credential"

abbrev pub remote_object_id_kind_key : String
remote_object_id_kind_key = "remote_objectid_kind"

abbrev pub collect_subscriptions_persistent : String
collect_subscriptions_persistent = "collect.subscriptions.persistent"

abbrev pub broadcast_subscriptions_persistent : String
broadcast_subscriptions_persistent = "broadcast.subscriptions.persistent"

abbrev pub collect_filter_general_messages : String
collect_filter_general_messages = "collect.filter_general_messages"

-- Setting
unfoldable pub setting : Settings → String → String
setting s key = or_blank (get s key)

abbrev pub is_defined : Settings → String → Bool
is_defined s key = elim (get s key) [ none ↦ false | some v ↦ true ]

-- SetSetting
unfoldable pub set_setting : Settings → String → String → Settings
set_setting s k v = set s k v

-- SetSettingsDefinition; none is a nil map
unfoldable pub set_settings_definition : Settings → Option Settings → Settings
set_settings_definition s none = s
set_settings_definition s (some m) = fill (λ _ v. v) s m

-- SettingsDefinition
unfoldable pub settings_definition : Settings → Settings
settings_definition s = fill (λ _ v. v) [] s

abbrev pub both_credentials : Settings → String
both_credentials s = append (setting s local_credential) (append "," (setting s local_credentials))

-- Credentials
unfoldable pub credentials : Settings → String
unfolding setting append
credentials s =
    if not (is_defined s local_credential) && not (is_defined s local_credentials)
    then ""
    else both_credentials s

abbrev pub or_else : String → String → String
or_else value default = ite (string_dec value "") default value

-- RemoteObjectIDKind
unfoldable pub remote_object_id_kind : Settings → String → String
unfolding setting append
remote_object_id_kind s connector_name =
    or_else (setting s (append connector_name (append "." remote_object_id_kind_key)))
      (setting s remote_object_id_kind_key)

-- VehicleRemoteObjectIDKind
unfoldable pub vehicle_remote_object_id_kind : Settings → String → String
unfolding setting append
vehicle_remote_object_id_kind s connector_name =
    or_else (setting s (append connector_name (append "." "vehicle_remote_objectid_kind")))
      (setting s remote_object_id_kind_key)

-- ProducerRef
unfoldable pub producer_ref : Settings → String
unfolding setting
producer_ref s = or_else (setting s remote_credential) "Ara"

-- CollectPriority; `atoi` is strconv.Atoi, with 0 beside an error, where an int is its value plus
-- 2 ^ 63
unfoldable pub collect_priority : (String → ℕ) → Settings → ℕ
unfolding setting
collect_priority atoi s = atoi (setting s "collect.priority")

-- Address
unfoldable pub address : Settings → String
unfolding setting
address s = setting s "local_url"

-- NoDestinationRefRewritingFrom, NoDataFrameRefRewritingFrom
unfoldable pub no_destination_ref_rewriting_from : Settings → List String
unfolding setting trimmed_slice
no_destination_ref_rewriting_from s =
    trimmed_slice (setting s "broadcast.no_destinationref_rewriting_from")

unfoldable pub no_data_frame_ref_rewriting_from : Settings → List String
unfolding setting trimmed_slice
no_data_frame_ref_rewriting_from s =
    trimmed_slice (setting s "broadcast.no_dataframeref_rewriting_from")

-- setCollectSettings
unfoldable pub partner_collect_settings : Settings → CollectSettings
unfolding setting collect_settings
partner_collect_settings s =
    collect_settings (setting s "collect.use_discovered_stop_areas")
      (setting s "collect.include_stop_areas") (setting s "collect.include_lines")
      (setting s "collect.exclude_stop_areas")

-- a signed time.Duration, in nanoseconds
pub record Duration : Type 0 where
  pub is_negative : Bool
  pub magnitude : ℕ

abbrev pub hour : ℕ
hour = 3600 * 1000000000

abbrev pub negated : Duration → Duration
negated d = record d { is_negative = not d.is_negative }

module _ (parse_duration : String → Duration) where
  -- GtfsCacheTimeout
  unfoldable pub gtfs_cache_timeout : Settings → ℕ
  unfolding setting
  gtfs_cache_timeout s =
      let t = parse_duration (setting s "broadcast.gtfs.cache_timeout") in
      if t.is_negative
      then default_cache_life_span
      else ite (dec_lt t.magnitude min_cache_life_span) default_cache_life_span t.magnitude

  -- CacheTimeout
  unfoldable pub cache_timeout : Settings → String → Duration
  unfolding setting append
  cache_timeout s connector_name =
      parse_duration (setting s (append connector_name (append "." "cache_timeout")))

  -- DiscoveryInterval, which is given as its negation
  unfoldable pub discovery_interval : Settings → Duration
  unfolding setting
  discovery_interval s =
      let d = parse_duration (setting s "discovery_interval") in
      ite (ℕ_discrete d.magnitude 0) (record { is_negative = true; magnitude = hour }) (negated d)

module _ (parse_bool : String → Bool) where
  -- RewriteJourneyPatternRef, LogSubscriptionStopMonitoringDeliveries,
  -- LogRequestStopMonitoringDeliveries, GzipGtfs
  unfoldable pub rewrite_journey_pattern_ref : Settings → Bool
  unfolding setting
  rewrite_journey_pattern_ref s = parse_bool (setting s "broadcast.rewrite_journey_pattern_ref")

  unfoldable pub log_subscription_stop_monitoring_deliveries : Settings → Bool
  unfolding setting
  log_subscription_stop_monitoring_deliveries s =
      parse_bool (setting s "logstash.log_deliveries_in_sm_collect_notifications")

  unfoldable pub log_request_stop_monitoring_deliveries : Settings → Bool
  unfolding setting
  log_request_stop_monitoring_deliveries s =
      parse_bool (setting s "logstash.log_deliveries_in_sm_collect_requests")

  unfoldable pub gzip_gtfs : Settings → Bool
  unfolding setting
  gzip_gtfs s = parse_bool (setting s "broadcast.gzip_gtfs")

-- After SetSettingsDefinition with a map of distinct keys, a setting is what the map says, and one
-- that the map leaves out keeps its old value.
pub setting-set_settings_definition :
    (s m : Settings) (key : String)
    → IsDistinct m
    → get (set_settings_definition s (some m)) key ≡ filled (λ _ v. v) key (get m key) (get s key)
unfolding set_settings_definition
setting-set_settings_definition s m key d = get-fill (λ _ v. v) s m key d

-- GtfsCacheTimeout is never below the least life span of a cache, which is ten seconds.
pub gtfs_cache_timeout-bounded :
    (parse_duration : String → Duration) (s : Settings)
    → min_cache_life_span ≤ gtfs_cache_timeout parse_duration s
unfolding gtfs_cache_timeout
gtfs_cache_timeout-bounded parse_duration s = ground arith
