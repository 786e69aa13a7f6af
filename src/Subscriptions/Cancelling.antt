-- ===== src/Subscriptions/Cancelling.antt =====
-- The cancellations of core/subscription.go.
use ara.Prelude.{◌≡◌, Bool, true, false, not, Option, none, some, if◌then◌else◌, arith, string_key}
use ara.GoMap.{IsDistinct}
use ara.GoMap.Loops.{get-sweep, sweep-IsDistinct}
use ara.Subscription.{Subscription, SubscriptionId}
use ara.Subscriptions.{
  Subscriptions, same, find, is_external, cancel_subscriptions, cancel_broadcast_subscriptions,
  cancel_collect_subscriptions,
}

module _ {S : Type 0} where
  -- what stays of a subscription when those of one side are cancelled
  abbrev pub kept : Bool → Option (Subscription S) → Option (Subscription S)
  kept external none = none
  kept true (some sub) = if same sub.external_id "" then none else some sub
  kept false (some sub) = if same sub.external_id "" then some sub else none

  -- On a manager with distinct keys, CancelBroadcastSubscriptions takes away exactly the
  -- subscriptions with an external id, CancelCollectSubscriptions exactly those without, and each
  -- leaves the others as they were.
  pub find-cancel :
      (manager : Subscriptions S) (id : SubscriptionId)
      → IsDistinct manager
      → (find (cancel_broadcast_subscriptions manager) id ≡ kept false (find manager id))
        × (find (cancel_collect_subscriptions manager) id ≡ kept true (find manager id))
  unfolding cancel_broadcast_subscriptions cancel_collect_subscriptions
  find-cancel manager id d = (
    ground (arith, get-sweep is_external manager manager id d),
    ground (arith, get-sweep (λ i s. not (is_external i s)) manager manager id d),
  )

  -- Both in a row leave nothing, as CancelSubscriptions does.
  pub find-cancel_both :
      (manager : Subscriptions S) (id : SubscriptionId)
      → IsDistinct manager
      → (find (cancel_collect_subscriptions (cancel_broadcast_subscriptions manager)) id ≡ none)
        × (find (cancel_subscriptions manager) id ≡ none)
  unfolding cancel_subscriptions
  find-cancel_both manager id d = (
    ground (
      arith,
      find-cancel manager id d,
      find-cancel (cancel_broadcast_subscriptions manager) id (broadcast-IsDistinct manager d),
    ),
    ground (arith, get-sweep (λ _ _. true) manager manager id d),
  )
    where
      broadcast-IsDistinct :
          (m : Subscriptions S) → IsDistinct m → IsDistinct (cancel_broadcast_subscriptions m)
      broadcast-IsDistinct m h =
          unfold cancel_broadcast_subscriptions in sweep-IsDistinct is_external m m h
