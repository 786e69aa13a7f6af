-- ===== src/Subscriptions/Terminated/Left.antt =====
-- What checkSubscriptionsTerminatedTime of core/partner_guardian.go leaves.
use ara.Prelude.{
  String, ◌≡◌, refl, true, false, Option, none, some, [], ◌∷◌, ite, if◌then◌else◌, arith,
  string_dec, string_key, ◌∙◌,
}
use ara.GoMap.{Map, get, get-set, get-delete, delete, is_empty, IsDistinct}
use ara.GoMap.Loops.{sweep}
use ara.Schedules.{Time}
use ara.Subscription
use ara.Subscription.{Subscription, SubscriptionId, Resource}
use ara.Subscriptions
use ara.Subscriptions.{Subscriptions}
use ara.Subscriptions.Terminated.{is_over, drop_resources, check_subscription, check_all}

module _ {S : Type 0} where
  drop_resources_lem :
      (now : Time) (m : Map String (Resource S)) (sub : Subscription S)
      → drop_resources now m sub ≡ record sub {
        resources_by_object_id = sweep (λ _ r. is_over now r) sub.resources_by_object_id m;
      }
  unfolding drop_resources sweep Subscription.delete_resource
  drop_resources_lem now [] sub = refl
  drop_resources_lem now ((key, r) ∷ rest) sub =
      elim (is_over now r)
        as (λ b.
          drop_resources now rest (
            if b
            then record sub { resources_by_object_id = delete sub.resources_by_object_id key }
            else sub)
          ≡ record sub {
            resources_by_object_id =
                sweep (λ _ q. is_over now q)
                  (if b then delete sub.resources_by_object_id key else sub.resources_by_object_id)
                  rest;
          }) [
            | true ↦
                drop_resources_lem now rest
                  (record sub { resources_by_object_id = delete sub.resources_by_object_id key })
            | false ↦ drop_resources_lem now rest sub
          ]

  -- the subscription without the resources that are over
  abbrev pub current : Time → Subscription S → Subscription S
  current now sub = record sub {
    resources_by_object_id =
        sweep (λ _ r. is_over now r) sub.resources_by_object_id sub.resources_by_object_id;
  }

  -- nothing, if no resource is left
  abbrev pub left : Time → Option (Subscription S) → Option (Subscription S)
  left now none = none
  left now (some sub) =
      if is_empty (current now sub).resources_by_object_id then none else some (current now sub)

  get-check_subscription :
      (now : Time) (manager : Subscriptions S) (sub : Subscription S) (id : SubscriptionId)
      → get (check_subscription now manager sub) id
        ≡ ite (string_dec sub.id id) (left now (some sub)) (get manager id)
  unfolding check_subscription Subscriptions.remove
  get-check_subscription now manager sub id = ground (
    arith,
    drop_resources_lem now sub.resources_by_object_id sub,
    get-delete manager sub.id id,
    get-set manager sub.id (current now sub) id,
  )

  -- Every subscription stands under its own id.
  abbrev pub IsNamed : Subscriptions S → Type 0
  IsNamed [] = Unit
  IsNamed ((id, sub) ∷ rest) = (sub.id ≡ id) × IsNamed rest

  -- what the loop leaves at an id that it visits, or not
  abbrev pub visited :
      Time → Option (Subscription S) → Option (Subscription S) → Option (Subscription S)
  visited now none before = before
  visited now (some sub) before = left now (some sub)

  get-check_all :
      (now : Time) (l manager : Subscriptions S) (id : SubscriptionId)
      → IsDistinct l
      → IsNamed l
      → get (check_all now l manager) id ≡ visited now (get l id) (get manager id)
  unfolding check_all get
  get-check_all now [] manager id d n = refl
  get-check_all now ((k, sub) ∷ rest) manager id d n = ground (
    arith,
    get-check_all now rest (check_subscription now manager sub) id d.1 n.1,
    get-check_subscription now manager sub id,
  )

  left-visited : (now : Time) (o : Option (Subscription S)) → visited now o o ≡ left now o
  left-visited now none = refl
  left-visited now (some sub) = refl

  -- Where the subscriptions of a partner stand once under their own ids, the check of their times
  -- leaves each without the resources that were subscribed and are over, and takes away one that
  -- has no resource left.
  pub get-check_all_own :
      (now : Time) (manager : Subscriptions S) (id : SubscriptionId)
      → IsDistinct manager
      → IsNamed manager
      → get (check_all now manager manager) id ≡ left now (get manager id)
  get-check_all_own now manager id d n =
      get-check_all now manager manager id d n ∙ left-visited now (get manager id)
