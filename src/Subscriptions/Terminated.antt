-- ===== src/Subscriptions/Terminated.antt =====
-- checkSubscriptionsTerminatedTime of core/partner_guardian.go: resources whose time is over are
-- dropped, and so is a subscription that is left without any.
pub mod Left
use ara.Prelude.{String, Bool, false, not, [], ◌∷◌, ite, if◌then◌else◌, string_key, dec_lt}
use ara.GoMap.{Map, set, is_empty}
use ara.Schedules.{Time, is_zero}
use ara.Subscription
use ara.Subscription.{Subscription, SubscriptionId, Resource}
use ara.Subscriptions
use ara.Subscriptions.{Subscriptions}

-- `if Before(until) || IsZero(at) { continue }`: a resource that was subscribed and whose time is over
abbrev pub is_over : {S : Type 0} → Time → Resource S → Bool
is_over now r = ite (dec_lt r.subscribed_until now) (not (is_zero r.subscribed_at)) false

module _ {S : Type 0} where
  -- the inner loop of checkSubscriptionsTerminatedTime, over a copy of the resources
  unfoldable pub drop_resources : Time → Map String (Resource S) → Subscription S → Subscription S
  drop_resources now [] sub = sub
  drop_resources now ((key, r) ∷ rest) sub =
      drop_resources now rest (if is_over now r then Subscription.delete_resource sub key else sub)

  -- the body of the outer loop: the subscription is shared with the manager
  unfoldable pub check_subscription : Time → Subscriptions S → Subscription S → Subscriptions S
  unfolding drop_resources
  check_subscription now manager sub =
      let kept = drop_resources now sub.resources_by_object_id sub in
      if is_empty kept.resources_by_object_id
      then Subscriptions.remove manager sub.id
      else set manager sub.id kept

  unfoldable pub check_all : Time → Subscriptions S → Subscriptions S → Subscriptions S
  unfolding check_subscription
  check_all now [] manager = manager
  check_all now ((_, sub) ∷ rest) manager = check_all now rest (check_subscription now manager sub)
