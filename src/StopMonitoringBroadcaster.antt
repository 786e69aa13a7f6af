-- ===== src/StopMonitoringBroadcaster.antt =====
-- core/siri_stop_monitoring_subscription_broadcaster.go: which stop visits and stop areas are to be
-- sent to a subscriber.
-- The connector belongs to a partner: its slug, its kind of remote identifiers for this connector
-- and its subscriptions are arguments, and the subscriptions, which the code changes in place, are
-- handed on. `depth` bounds findAscendants, `submatch` is the regular expression of the option, and
-- none is a panic or an endless recursion.
pub mod Lists
pub mod Tracked
pub mod Served
pub mod Listing
pub mod Events
use Prim.Native.Char.{Char, code}
use ara.Prelude.{
  ℕ, String, Bool, true, false, not, ◌||◌, Option, none, some, List, [], ◌∷◌, ◌++◌, ite,
  if◌then◌else◌, string_dec, string_key, dec_lt, ℕ_discrete,
}
use ara.GoMap.{Map, get, set}
use ara.ObjectId.{ObjectId, new, object_id}
use ara.ObjectIdIndex.{ModelId}
use ara.Schedules.{Time}
use ara.Origins.{Origins}
use ara.StopArea.{StopArea}
use ara.StopAreas
use ara.StopAreas.{BroadcastEvent}
use ara.StopVisit.{StopVisit}
use ara.StopVisits
use ara.CollectSettings.{include}
use ara.Store.{Found, found, missing, panic}
use ara.Model.{MemoryModel}
use ara.Line.{Line}
use ara.VehicleJourneys.{VehicleJourney}
use ara.VehicleJourneys
use ara.Transaction.{no_changes}
use ara.TransactionalStopAreas
use ara.Subscription.{
  SubscriptionId, Subscription, Resource, text, resource, last_state, set_last_state,
  subscription_option,
}
use ara.Subscriptions.{Subscriptions, same, find_by_resource_id}
use ara.LastStates.{
  Groups, VisitState, update_state, monitoring_has_changed, update_origins, area_has_changed,
}
use ara.Updates.{bind, find_line}

-- what a resource keeps under the id of a stop visit or of a stop area
pub data LastState : Type 0 where
  visit_state : VisitState → LastState
  area_state : Origins → LastState

abbrev pub MonitoringSubscriptions : Type 0
MonitoringSubscriptions = Subscriptions LastState

abbrev pub MonitoringSubscription : Type 0
MonitoringSubscription = Subscription LastState

-- the maps of the connector
pub record Waiting : Type 0 where
  pub to_broadcast : Map SubscriptionId (List ModelId)
  pub not_monitored : Map SubscriptionId (List String)

-- newSIRIStopMonitoringSubscriptionBroadcaster
abbrev pub nothing_waiting : Waiting
nothing_waiting = record { to_broadcast = []; not_monitored = [] }

abbrev pub or_nil {ℓ} : {A : Type ℓ} → Option (List A) → List A
or_nil none = []
or_nil (some l) = l

-- the loop of addStopVisit
unfoldable pub queue :
    Map SubscriptionId (List ModelId)
    → List SubscriptionId
    → ModelId
    → Map SubscriptionId (List ModelId)
queue waiting [] sv = waiting
queue waiting (id ∷ ids) sv = queue (set waiting id (or_nil (get waiting id) ++ sv ∷ [])) ids sv

-- addStopVisit
unfoldable pub add_stop_visit : Waiting → List SubscriptionId → ModelId → Waiting
unfolding queue
add_stop_visit waiting ids sv = record waiting { to_broadcast = queue waiting.to_broadcast ids sv }

-- strings.SplitN(s, ":", 2), where it gives two parts
abbrev pub onto : Char → Option (String × String) → Option (String × String)
onto c none = none
onto c (some (before, after)) = some (String.◌∷◌ c before, after)

unfoldable pub split_at_colon : String → Option (String × String)
split_at_colon String.[] = none
split_at_colon (String.◌∷◌ c s) =
    let rest = split_at_colon s in
    ite (ℕ_discrete (code c) b':') (some (String.[], s)) (onto c rest)

-- the end of lineRef; the outer none is the panic of the search
abbrev pub line_id_of : Found Line → Option (Option ModelId)
line_id_of panic = none
line_id_of missing = some (some "")
line_id_of (found line) = some (some line.id)

unfoldable pub line_of_parts : MemoryModel → Option (String × String) → Option (Option ModelId)
line_of_parts model none = some none
line_of_parts model (some (kind, value)) = line_id_of (find_line model (new kind value))

-- lineRef
unfoldable pub line_ref : MemoryModel → MonitoringSubscription → Option (Option ModelId)
unfolding line_of_parts split_at_colon
line_ref model sub =
    ite (string_dec (subscription_option sub "LineRef") "") (some none)
      (line_of_parts model (split_at_colon (subscription_option sub "LineRef")))

-- `lineRef, ok := connector.lineRef(sub, tx); ok && lineRef != vj.LineId`
abbrev pub refuses : ModelId → Option ModelId → Bool
refuses line_id none = false
refuses line_id (some id) = not (same id line_id)

-- vj.LineId, of the zero vehicle journey if it is not found
abbrev pub line_id_or_blank : Option VehicleJourney → ModelId
line_id_or_blank none = ""
line_id_or_blank (some vj) = vj.line_id

abbrev pub is_expired : Time → Resource LastState → Bool
is_expired now r = ite (dec_lt r.subscribed_until now) true false

-- a change to a resource, which the subscription shares
abbrev pub with_last_state :
    MonitoringSubscription
    → ObjectId
    → Resource LastState
    → ModelId
    → LastState
    → MonitoringSubscription
with_last_state sub o r id state = record sub {
  resources_by_object_id = set sub.resources_by_object_id (text o) (set_last_state r id state);
}

module _ (submatch : String → Option Groups) (depth : ℕ) (slug kind : String) where
  -- the end of the loop of checkEvent, on the last state: the subscription, and whether its id is
  -- listed
  unfoldable pub judge :
      MonitoringSubscription
      → ObjectId
      → Resource LastState
      → StopVisit
      → Option LastState
      → Option (MonitoringSubscription × Bool)
  judge sub o r sv none = some (with_last_state sub o r sv.id (visit_state (update_state sv)), true)
  judge sub o r sv (some (visit_state state)) =
      some (sub, monitoring_has_changed submatch sub state sv)
  judge sub o r sv (some (area_state origins)) = none

  unfoldable pub check_resource :
      Time
      → MemoryModel
      → ModelId
      → MonitoringSubscription
      → ObjectId
      → StopVisit
      → Option (Resource LastState)
      → Option (MonitoringSubscription × Bool)
  unfolding judge line_ref
  check_resource now model line_id sub o sv none = some (sub, false)
  check_resource now model line_id sub o sv (some r) =
      if is_expired now r
      then some (sub, false)
      else bind (line_ref model sub) (λ line.
        if refuses line_id line then some (sub, false) else judge sub o r sv (last_state r sv.id))

  -- the body of the inner loop of checkEvent
  unfoldable pub check_subscription :
      Time
      → MemoryModel
      → ModelId
      → ObjectId
      → StopVisit
      → MonitoringSubscription
      → Option (MonitoringSubscription × Bool)
  unfolding check_resource
  check_subscription now model line_id o sv sub =
      check_resource now model line_id sub o sv (resource sub o)

  unfoldable pub check_subscriptions :
      Time
      → MemoryModel
      → ModelId
      → ObjectId
      → StopVisit
      → List MonitoringSubscription
      → MonitoringSubscriptions
      → List SubscriptionId
      → Option (MonitoringSubscriptions × List SubscriptionId)
  unfolding check_subscription
  check_subscriptions now model line_id o sv [] manager ids = some (manager, ids)
  check_subscriptions now model line_id o sv (sub ∷ subs) manager ids =
      bind (check_subscription now model line_id o sv sub) (λ (checked, listed).
        check_subscriptions now model line_id o sv subs (set manager checked.id checked)
          (if listed then ids ++ checked.id ∷ [] else ids))

  -- the outer loop
  unfoldable pub check_identifiers :
      Time
      → MemoryModel
      → ModelId
      → StopVisit
      → List ObjectId
      → MonitoringSubscriptions
      → List SubscriptionId
      → Option (MonitoringSubscriptions × List SubscriptionId)
  unfolding check_subscriptions
  check_identifiers now model line_id sv [] manager ids = some (manager, ids)
  check_identifiers now model line_id sv (o ∷ os) manager ids =
      bind
        (check_subscriptions now model line_id o sv
          (find_by_resource_id manager (text o) "StopMonitoringBroadcast") manager ids)
        (λ (after, listed). check_identifiers now model line_id sv os after listed)

  -- checkEvent
  unfoldable pub check_event :
      Time
      → MemoryModel
      → StopVisit
      → MonitoringSubscriptions
      → Option (MonitoringSubscriptions × List SubscriptionId)
  unfolding check_identifiers
  check_event now model sv manager =
      if same sv.origin slug
      then some (manager, [])
      else bind
          (TransactionalStopAreas.find_ascendants_with_kind depth no_changes model.stop_areas kind
            sv.stop_area_id)
          (λ os.
            check_identifiers now model
              (line_id_or_blank (VehicleJourneys.find model.vehicle_journeys sv.vehicle_journey_id))
              sv os manager [])
