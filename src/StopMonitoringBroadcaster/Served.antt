-- ===== src/StopMonitoringBroadcaster/Served.antt =====
-- Which subscriptions checkEvent of core/siri_stop_monitoring_subscription_broadcaster.go lists.
use ara.Prelude.{
  subst, ℕ, String, ◌≡◌, refl, Bool, true, false, Option, none, some, List, [], ◌∷◌, ◌++◌,
  if◌then◌else◌, string_key, Bool-cases, inl, inr,
}
use ara.GoMap.{set}
use ara.ObjectId.{ObjectId}
use ara.ObjectIdIndex.{ModelId}
use ara.Schedules.{Time}
use ara.StopVisit.{StopVisit}
use ara.Model.{MemoryModel}
use ara.Subscription.{SubscriptionId, Resource, text, resource, last_state}
use ara.Subscriptions.{find_by_resource_id}
use ara.LastStates.{Groups, monitoring_has_changed}
use ara.StopMonitoringBroadcaster.{
  LastState, visit_state, area_state, MonitoringSubscriptions, MonitoringSubscription, judge,
  check_resource, check_subscription, check_subscriptions, check_identifiers, is_expired, refuses,
  line_ref,
}
use ara.StopMonitoringBroadcaster.Lists.{
  AllIn, AllOf, AllIds, AllObjects, set-AllIn, select-AllOf, append-AllIds,
}
use ara.StopMonitoringBroadcaster.Tracked.{
  IsOfVisit, IsServed, IsTracked, Keeps, set-Keeps, IsSameResource, same_time_before,
  with_last_state-IsTracked,
}

module _ (submatch : String → Option Groups) (depth : ℕ) (slug kind : String) (now : Time)
    (model : MemoryModel) (line_id : ModelId) (sv : StopVisit) (Q : ObjectId → Type 0)
    (base : MonitoringSubscriptions) where
  -- lineRef does not panic
  abbrev pub LinesAreProper : Type 0
  LinesAreProper =
      (sub : MonitoringSubscription) → (line : Option ModelId) × (line_ref model sub ≡ some line)

  -- the outcome of the body of the inner loop
  abbrev pub IsChecked : Option (MonitoringSubscription × Bool) → Type 0
  IsChecked run =
      (after : MonitoringSubscription) × (listed : Bool) × (run ≡ some (after, listed))
      × IsTracked sv.id base after
      × (listed ≡ true → IsServed now Q base after.id)

  served :
      (sub : MonitoringSubscription) (o : ObjectId) (r : Resource LastState)
      → Q o
      → IsTracked sv.id base sub
      → resource sub o ≡ some r
      → is_expired now r ≡ false
      → IsServed now Q base sub.id
  served sub o r q x f live =
      let (r₀, g, until) =
        same_time_before sv.id (resource x.before o) r
          (subst (IsSameResource sv.id (resource x.before o)) f (x.resources_lem o)) in
      record {
        sub = x.before;
        o = o;
        r = r₀;
        found_lem = x.found_lem;
        asked_lem = q;
        resource_lem = g;
        live_lem = rw until live;
      }

  judge-IsChecked :
      (sub : MonitoringSubscription) (o : ObjectId) (r : Resource LastState) (s : Option LastState)
      → Q o
      → IsTracked sv.id base sub
      → resource sub o ≡ some r
      → is_expired now r ≡ false
      → IsOfVisit s
      → IsChecked (judge submatch depth slug kind sub o r sv s)
  unfolding judge
  judge-IsChecked sub o r none q x f live readable = (
    _,
    true,
    refl,
    with_last_state-IsTracked sv.id base sub o r sv f x,
    λ _. served sub o r q x f live,
  )
  judge-IsChecked sub o r (some (visit_state state)) q x f live readable =
      (sub, monitoring_has_changed submatch sub state sv, refl, x, λ _. served sub o r q x f live)
  judge-IsChecked sub o r (some (area_state origins)) q x f live readable = absurd readable

  after_line :
      (sub : MonitoringSubscription) (o : ObjectId) (r : Resource LastState) (line : Option ModelId)
      → Q o
      → IsTracked sv.id base sub
      → resource sub o ≡ some r
      → is_expired now r ≡ false
      → IsChecked (
          if refuses line_id line
          then some (sub, false)
          else judge submatch depth slug kind sub o r sv (last_state r sv.id))
  after_line sub o r line q x f live =
      elim (refuses line_id line)
        as (λ b. IsChecked (
          if b
          then some (sub, false)
          else judge submatch depth slug kind sub o r sv (last_state r sv.id))) [
            | true ↦ (sub, false, refl, x, λ e. cc)
            | false ↦ judge-IsChecked sub o r (last_state r sv.id) q x f live (x.readable o r f)
          ]

  check_resource-IsChecked :
      (sub : MonitoringSubscription) (o : ObjectId) (f : Option (Resource LastState))
      → LinesAreProper
      → Q o
      → IsTracked sv.id base sub
      → resource sub o ≡ f
      → IsChecked (check_resource submatch depth slug kind now model line_id sub o sv f)
  unfolding check_resource
  check_resource-IsChecked sub o none lines q x e = (sub, false, refl, x, λ c. cc)
  check_resource-IsChecked sub o (some r) lines q x e = elim (Bool-cases (is_expired now r)) [
    | inl over ↦ (sub, false, rw over refl, x, λ c. cc)
    | inr live ↦
        let (line, g) = lines sub in
        let (after, listed, h, y, s) = after_line sub o r line q x e live in
        (after, listed, rw (live, g) h, y, s)
  ]

  -- the outcome of a loop
  abbrev pub IsOutcome : Option (MonitoringSubscriptions × List SubscriptionId) → Type 0
  IsOutcome run =
      (after : MonitoringSubscriptions) × (ids : List SubscriptionId) × (run ≡ some (after, ids))
      × AllIn (IsTracked sv.id base) after
      × Keeps base after
      × AllIds (IsServed now Q base) ids

  listed-AllIds :
      (ids : List SubscriptionId) (id : SubscriptionId) (listed : Bool)
      → (listed ≡ true → IsServed now Q base id)
      → AllIds (IsServed now Q base) ids
      → AllIds (IsServed now Q base) (if listed then ids ++ id ∷ [] else ids)
  listed-AllIds ids id true s a = append-AllIds (IsServed now Q base) ids id a (s refl)
  listed-AllIds ids id false s a = a

  check_subscriptions-IsOutcome :
      (o : ObjectId) (subs : List MonitoringSubscription) (manager : MonitoringSubscriptions)
      (ids : List SubscriptionId)
      → LinesAreProper
      → Q o
      → AllOf (IsTracked sv.id base) subs
      → AllIn (IsTracked sv.id base) manager
      → Keeps base manager
      → AllIds (IsServed now Q base) ids
      → IsOutcome
          (check_subscriptions submatch depth slug kind now model line_id o sv subs manager ids)
  unfolding check_subscriptions check_subscription
  check_subscriptions-IsOutcome o [] manager ids lines q subs x k a = (manager, ids, refl, x, k, a)
  check_subscriptions-IsOutcome o (sub ∷ rest) manager ids lines q subs x k a =
      let (checked, listed, e, y, s) =
        check_resource-IsChecked sub o (resource sub o) lines q subs.0 refl in
      rw e (
        check_subscriptions-IsOutcome o rest (set manager checked.id checked)
          (if listed then ids ++ checked.id ∷ [] else ids) lines q subs.1
          (set-AllIn (IsTracked sv.id base) manager checked.id checked y x)
          (set-Keeps base manager checked k) (listed-AllIds ids checked.id listed s a))

  pub check_identifiers-IsOutcome :
      (os : List ObjectId) (manager : MonitoringSubscriptions) (ids : List SubscriptionId)
      → LinesAreProper
      → AllObjects Q os
      → AllIn (IsTracked sv.id base) manager
      → Keeps base manager
      → AllIds (IsServed now Q base) ids
      → IsOutcome (check_identifiers submatch depth slug kind now model line_id sv os manager ids)
  unfolding check_identifiers find_by_resource_id
  check_identifiers-IsOutcome [] manager ids lines q x k a = (manager, ids, refl, x, k, a)
  check_identifiers-IsOutcome (o ∷ os) manager ids lines q x k a =
      let (after, listed, e, y, k', b) =
        check_subscriptions-IsOutcome o
          (find_by_resource_id manager (text o) "StopMonitoringBroadcast") manager ids lines q.0
          (select-AllOf (IsTracked sv.id base) _ manager x) x k a in
      rw e (check_identifiers-IsOutcome os after listed lines q.1 y k' b)
