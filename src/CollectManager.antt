-- ===== src/CollectManager.antt =====
-- core/collect_manager.go: which partner a stop area or a line is asked from.
-- The partners come in the order of FindAllByCollectPriority, and a request is a value that names
-- the partner and the connector it goes to. `parse_bool` is strconv.ParseBool, false beside an error.

pub mod Choice
use ara.Prelude.{
  String, Bool, true, false, not, ◌&&◌, ◌||◌, Option, none, some, List, [], ◌∷◌, if◌then◌else◌,
  string_key,
}
use ara.GoMap.{get}
use ara.ObjectId.{ObjectId}
use ara.ObjectIdIndex.{ModelId}
use ara.Store
use ara.Store.{Store}
use ara.CollectSettings.{include}
use ara.Line.{Line, line_entity}
use ara.StopArea.{StopArea}
use ara.StopAreas
use ara.Model.{MemoryModel}
use ara.PartnerSettings.{
  setting, remote_object_id_kind_key, collect_subscriptions_persistent,
  collect_filter_general_messages,
}
use ara.Connectors.{same}
use ara.Partner.{
  Partner, up, stop_monitoring_subscription_collector, stop_monitoring_request_collector,
  general_message_request_collector, general_message_subscription_collector, partner_can_collect,
  can_collect_line,
}

abbrev pub is_some {ℓ} : {A : Type ℓ} → Option A → Bool
is_some none = false
is_some (some a) = true

-- the set of the values of the lines that have an identifier of the kind
abbrev pub value_of : Option Line → String → Option ObjectId
value_of none kind = none
value_of (some line) kind = get line.object_ids kind

abbrev pub add_value : Option ObjectId → List String → List String
add_value none values = values
add_value (some o) values = if include values o.value then values else o.value ∷ values

unfoldable pub line_values : Store Line → String → List ModelId → List String
unfolding include
line_values lines kind [] = []
line_values lines kind (id ∷ ids) =
    add_value (value_of (Store.find lines id) kind) (line_values lines kind ids)

-- which of its two collectors a partner is asked through
pub data Through : Type 0 where
  by_subscription by_request : Through

abbrev pub through_of : Bool → Through
through_of true = by_subscription
through_of false = by_request

module _ {C S : Type 0} (parse_bool : String → Bool) where
  abbrev pub is_up : Partner C S → Bool
  is_up partner = same partner.status.operationnal_status up

  abbrev pub kind_of : Partner C S → String
  kind_of partner = setting partner.settings remote_object_id_kind_key

  abbrev pub collects : Partner C S → String → StopArea → Store Line → Option ObjectId → Bool
  collects partner kind sa lines none = false
  collects partner kind sa lines (some o) =
      partner_can_collect partner o.value (line_values lines kind sa.line_ids)

  -- the body of the loop of UpdateStopArea: is this the partner to ask?
  unfoldable pub serves_stop_area : MemoryModel → StopArea → Partner C S → Bool
  serves_stop_area model sa partner =
      (is_some (stop_monitoring_subscription_collector partner)
        || is_some (stop_monitoring_request_collector partner))
      && (is_up partner
          || (parse_bool (setting partner.settings collect_subscriptions_persistent)
              && is_some (stop_monitoring_subscription_collector partner)))
      && collects partner (kind_of partner) sa model.lines (get sa.object_ids (kind_of partner))

  -- the loops that ask the first partner that will do
  unfoldable pub first_serving : (Partner C S → Bool) → List (Partner C S) → Option (Partner C S)
  first_serving serves [] = none
  first_serving serves (partner ∷ rest) =
      let later = first_serving serves rest in if serves partner then some partner else later

  abbrev pub asked :
      (Partner C S → Option C) → Option (Partner C S) → Option (Partner C S × Through)
  asked subscription none = none
  asked subscription (some partner) = some (partner, through_of (is_some (subscription partner)))

  abbrev pub chosen :
      (StopArea → Partner C S → Bool)
      → (Partner C S → Option C)
      → List (Partner C S)
      → Option StopArea
      → Option (Partner C S × Through)
  chosen serves subscription partners none = none
  chosen serves subscription partners (some sa) =
      asked subscription (first_serving (serves sa) partners)

  -- UpdateStopArea
  unfoldable pub update_stop_area :
      List (Partner C S) → MemoryModel → ModelId → Option (Partner C S × Through)
  unfolding first_serving serves_stop_area
  update_stop_area partners model id =
      chosen (serves_stop_area model) stop_monitoring_subscription_collector partners
        (StopAreas.find model.stop_areas id)

  abbrev pub has_message_collector : Partner C S → Bool
  has_message_collector partner =
      is_some (general_message_request_collector partner)
      || is_some (general_message_subscription_collector partner)

  abbrev pub filters : Partner C S → Bool
  filters partner = parse_bool (setting partner.settings collect_filter_general_messages)

  -- requestAllSituations: every partner that is up and does not filter
  unfoldable pub request_all_situations : List (Partner C S) → List (Partner C S × Through)
  request_all_situations [] = []
  request_all_situations (partner ∷ rest) =
      let later = request_all_situations rest in
      if is_up partner && not (filters partner) && has_message_collector partner
      then (partner, through_of (is_some (general_message_subscription_collector partner))) ∷ later
      else later

  abbrev pub collects_line : Partner C S → Option ObjectId → Bool
  collects_line partner none = false
  collects_line partner (some o) = can_collect_line partner o.value

  -- the bodies of the loops of requestLineFilteredSituation and requestStopAreaFilteredSituation
  unfoldable pub serves_line : Line → Partner C S → Bool
  serves_line line partner =
      is_up partner
      && filters partner
      && has_message_collector partner
      && collects_line partner (get line.object_ids (kind_of partner))

  unfoldable pub serves_messages : MemoryModel → StopArea → Partner C S → Bool
  serves_messages model sa partner =
      is_up partner
      && filters partner
      && has_message_collector partner
      && collects partner (kind_of partner) sa model.lines (get sa.object_ids (kind_of partner))

  abbrev pub chosen_for_line : List (Partner C S) → Option Line → Option (Partner C S × Through)
  chosen_for_line partners none = none
  chosen_for_line partners (some line) =
      asked general_message_subscription_collector (first_serving (serves_line line) partners)

  -- requestLineFilteredSituation
  unfoldable pub request_line_filtered_situation :
      List (Partner C S) → MemoryModel → ModelId → Option (Partner C S × Through)
  unfolding first_serving serves_line
  request_line_filtered_situation partners model id =
      chosen_for_line partners (Store.find model.lines id)

  -- requestStopAreaFilteredSituation
  unfoldable pub request_stop_area_filtered_situation :
      List (Partner C S) → MemoryModel → ModelId → Option (Partner C S × Through)
  unfolding first_serving serves_messages
  request_stop_area_filtered_situation partners model id =
      chosen (serves_messages model) general_message_subscription_collector partners
        (StopAreas.find model.stop_areas id)
