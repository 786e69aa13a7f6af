-- ===== src/StopMonitoringBroadcaster/Events.antt =====
-- core/siri_stop_monitoring_subscription_broadcaster.go: checkStopAreaEvent and
-- HandleStopMonitoringBroadcastEvent.
use ara.Prelude.{
  ℕ, String, Bool, true, false, ◌||◌, Option, none, some, List, [], ◌∷◌, if◌then◌else◌, string_key,
}
use ara.GoMap.{get, set}
use ara.ObjectId.{ObjectId, object_id}
use ara.Schedules.{Time}
use ara.StopArea.{StopArea}
use ara.StopAreas
use ara.StopAreas.{BroadcastEvent}
use ara.StopVisit.{StopVisit}
use ara.StopVisits
use ara.CollectSettings.{include}
use ara.Model.{MemoryModel}
use ara.Subscription.{SubscriptionId, Resource, text, resource, last_state}
use ara.Subscriptions.{same, find_by_resource_id}
use ara.LastStates.{Groups, update_origins, area_has_changed}
use ara.Updates.{bind}
use ara.StopMonitoringBroadcaster.{
  LastState, visit_state, area_state, MonitoringSubscriptions, MonitoringSubscription, Waiting,
  or_nil, add_stop_visit, is_expired, with_last_state, check_event,
}

module _ (submatch : String → Option Groups) (depth : ℕ) (slug kind : String) where
  -- the stop visits of an event, in order
  unfoldable pub check_events :
      Time
      → MemoryModel
      → List StopVisit
      → MonitoringSubscriptions
      → Waiting
      → Option (MonitoringSubscriptions × Waiting)
  unfolding check_event add_stop_visit
  check_events now model [] manager waiting = some (manager, waiting)
  check_events now model (sv ∷ svs) manager waiting =
      bind (check_event submatch depth slug kind now model sv manager)
        (λ (after, ids). check_events now model svs after (add_stop_visit waiting ids sv.id))

  -- the loop over the partners that are lost, into a set
  unfoldable pub note_lost : List String → List String → List String
  note_lost noted [] = noted
  note_lost noted (partner ∷ partners) =
      note_lost (if same partner slug || include noted partner then noted else partner ∷ noted)
        partners

  unfoldable pub note_change : Waiting → SubscriptionId → List String × Bool → Waiting
  unfolding note_lost
  note_change waiting id (partners, true) = record waiting {
    not_monitored =
        set waiting.not_monitored id (note_lost (or_nil (get waiting.not_monitored id)) partners);
  }
  note_change waiting id (partners, false) = waiting

  -- the end of the loop of checkStopAreaEvent, on the last state
  unfoldable pub judge_area :
      MonitoringSubscription
      → ObjectId
      → Resource LastState
      → StopArea
      → Waiting
      → Option LastState
      → Option (MonitoringSubscription × Waiting)
  unfolding note_change
  judge_area sub o r sa waiting none =
      some (with_last_state sub o r sa.id (area_state (update_origins sa)), waiting)
  judge_area sub o r sa waiting (some (area_state last)) = some (
    with_last_state sub o r sa.id (area_state (update_origins sa)),
    note_change waiting sub.id (area_has_changed last sa),
  )
  judge_area sub o r sa waiting (some (visit_state state)) = none

  unfoldable pub check_area_resource :
      Time
      → MonitoringSubscription
      → ObjectId
      → StopArea
      → Waiting
      → Option (Resource LastState)
      → Option (MonitoringSubscription × Waiting)
  unfolding judge_area
  check_area_resource now sub o sa waiting none = some (sub, waiting)
  check_area_resource now sub o sa waiting (some r) =
      if is_expired now r
      then some (sub, waiting)
      else judge_area sub o r sa waiting (last_state r sa.id)

  unfoldable pub check_area_subscriptions :
      Time
      → ObjectId
      → StopArea
      → List MonitoringSubscription
      → MonitoringSubscriptions
      → Waiting
      → Option (MonitoringSubscriptions × Waiting)
  unfolding check_area_resource
  check_area_subscriptions now o sa [] manager waiting = some (manager, waiting)
  check_area_subscriptions now o sa (sub ∷ subs) manager waiting =
      bind (check_area_resource now sub o sa waiting (resource sub o)) (λ (checked, noted).
        check_area_subscriptions now o sa subs (set manager checked.id checked) noted)

  abbrev pub check_identified_area :
      Time
      → StopArea
      → MonitoringSubscriptions
      → Waiting
      → Option ObjectId
      → Option (MonitoringSubscriptions × Waiting)
  check_identified_area now sa manager waiting none = some (manager, waiting)
  check_identified_area now sa manager waiting (some o) =
      check_area_subscriptions now o sa
        (find_by_resource_id manager (text o) "StopMonitoringBroadcast") manager waiting

  -- checkStopAreaEvent
  unfoldable pub check_stop_area_event :
      Time
      → StopArea
      → MonitoringSubscriptions
      → Waiting
      → Option (MonitoringSubscriptions × Waiting)
  unfolding check_area_subscriptions
  check_stop_area_event now sa manager waiting =
      check_identified_area now sa manager waiting (object_id sa.object_ids kind)

  abbrev pub of_visit : Option StopVisit → List StopVisit
  of_visit none = []
  of_visit (some sv) = sv ∷ []

  abbrev pub check_area :
      Time
      → MonitoringSubscriptions
      → Waiting
      → Option StopArea
      → Option (MonitoringSubscriptions × Waiting)
  check_area now manager waiting none = some (manager, waiting)
  check_area now manager waiting (some sa) = check_stop_area_event now sa manager waiting

  -- HandleStopMonitoringBroadcastEvent; `sort` is sort.Sort(ByTime(...)), called twice on the list
  unfoldable pub handle_event :
      (List StopVisit → List StopVisit)
      → Time
      → MemoryModel
      → MonitoringSubscriptions
      → Waiting
      → BroadcastEvent
      → Option (MonitoringSubscriptions × Waiting)
  unfolding check_events check_stop_area_event
  handle_event sort now model manager waiting event =
      if same event.model_type "StopVisit"
      then check_events now model (of_visit (StopVisits.find model.stop_visits event.model_id))
          manager waiting
      else if same event.model_type "VehicleJourney"
      then bind
          (StopVisits.find_following_by_vehicle_journey_id sort now model.stop_visits
            event.model_id)
          (λ svs. check_events now model (sort svs) manager waiting)
      else if same event.model_type "StopArea"
      then check_area now manager waiting (StopAreas.find model.stop_areas event.model_id)
      else some (manager, waiting)
