-- ===== src/StopMonitoringBroadcaster/Tracked.antt =====
-- What checkEvent of core/siri_stop_monitoring_subscription_broadcaster.go keeps of the subscriptions
-- while it sets last states.
use ara.Prelude.{
  refl, none, ◌≢◌, subst, ◌≡◌, sym, ◌∙◌, ap, false, Option, some, ite, string_dec, string_key,
  arith, inl, inr, ◌⊎◌,
}
use ara.GoMap.{get, set, get-set}
use ara.ObjectId.{ObjectId}
use ara.ObjectIdIndex.{ModelId}
use ara.Schedules.{Time}
use ara.StopVisit.{StopVisit}
use ara.Subscription.{SubscriptionId, Resource, text, resource, last_state, set_last_state}
use ara.Subscriptions.{same}
use ara.LastStates.{update_state}
use ara.StopMonitoringBroadcaster.{
  LastState, visit_state, area_state, MonitoringSubscriptions, MonitoringSubscription,
  with_last_state, is_expired,
}

-- a state that checkEvent can read
abbrev pub IsOfVisit : Option LastState → Type 0
IsOfVisit (some (area_state origins)) = ⊥
IsOfVisit _ = Unit

-- every resource of the subscription has such a state under the id
abbrev pub IsReadable : ModelId → MonitoringSubscription → Type 0
IsReadable id sub =
    (o : ObjectId) (r : Resource LastState) → resource sub o ≡ some r → IsOfVisit (last_state r id)

-- a subscription with a resource for one of the identifiers, whose time is not over
pub record IsServed (now : Time) (Q : ObjectId → Type 0) (base : MonitoringSubscriptions)
    (id : SubscriptionId) : Type 0 where
  pub sub : MonitoringSubscription
  pub o : ObjectId
  pub r : Resource LastState
  pub found_lem : get base id ≡ some sub
  pub asked_lem : Q o
  pub resource_lem : resource sub o ≡ some r
  pub live_lem : is_expired now r ≡ false

-- the same resource, but for the last state under the id
abbrev pub IsSameResource :
    ModelId → Option (Resource LastState) → Option (Resource LastState) → Type 0
IsSameResource id none none = Unit
IsSameResource id (some r₀) (some r) =
    (r ≡ record r₀ { last_states = r.last_states })
    × ((j : ModelId) → j ≢ id → last_state r j ≡ last_state r₀ j)
IsSameResource id _ _ = ⊥

-- a subscription that differs from the one there was in the last states under the id only
pub record IsTracked (id : ModelId) (base : MonitoringSubscriptions) (sub : MonitoringSubscription)
    : Type 0 where
  pub before : MonitoringSubscription
  pub found_lem : get base sub.id ≡ some before
  pub rest_lem : sub ≡ record before { resources_by_object_id = sub.resources_by_object_id }
  pub resources_lem : (o : ObjectId) → IsSameResource id (resource before o) (resource sub o)
  pub readable : IsReadable id sub

-- the ids that there were are there
abbrev pub Keeps : MonitoringSubscriptions → MonitoringSubscriptions → Type 0
Keeps base after =
    (k : SubscriptionId) (sub : MonitoringSubscription)
    → get base k ≡ some sub
    → (s : MonitoringSubscription) × (get after k ≡ some s)

pub set-Keeps :
    (base after : MonitoringSubscriptions) (checked : MonitoringSubscription)
    → Keeps base after
    → Keeps base (set after checked.id checked)
set-Keeps base after checked keeps k sub e =
    let (s, f) = keeps k sub e in
    elim (string_dec checked.id k) [
      | yes p ↦ (checked, ground (arith, get-set after checked.id checked k))
      | no n ↦ (s, ground (arith, get-set after checked.id checked k))
    ]

pub same_resource : (id : ModelId) (b : Option (Resource LastState)) → IsSameResource id b b
same_resource id none = tt
same_resource id (some r) = (refl, λ j n. refl)

set_last_state-IsSameResource :
    (id : ModelId) (b : Option (Resource LastState)) (r : Resource LastState) (state : LastState)
    → IsSameResource id b (some r)
    → IsSameResource id b (some (set_last_state r id state))
set_last_state-IsSameResource id none r state h = h
set_last_state-IsSameResource id (some r₀) r state (e, f) = (
  ap (λ q. set_last_state q id state) e ∙ rw (ap (λ q. q.last_states) e) refl,
  λ j n. ground (arith, get-set r.last_states id state j, f j n),
)

-- a resource has the time it had
pub same_time_before :
    (id : ModelId) (b : Option (Resource LastState)) (r : Resource LastState)
    → IsSameResource id b (some r)
    → (r₀ : Resource LastState) × (b ≡ some r₀) × (r₀.subscribed_until ≡ r.subscribed_until)
same_time_before id none r h = absurd h
same_time_before id (some r₀) r (e, f) = (r₀, refl, sym (ap (λ q. q.subscribed_until) e))

resource-with_last_state :
    (sub : MonitoringSubscription) (o p : ObjectId) (r : Resource LastState) (id : ModelId)
    (state : LastState)
    → resource (with_last_state sub o r id state) p
      ≡ ite (string_dec (text o) (text p)) (some (set_last_state r id state)) (resource sub p)
unfolding resource
resource-with_last_state sub o p r id state =
    get-set sub.resources_by_object_id (text o) (set_last_state r id state) (text p)

-- what a resource of the changed subscription comes from
resource-with_last_state-cases :
    (sub : MonitoringSubscription) (o p : ObjectId) (r q : Resource LastState) (id : ModelId)
    (state : LastState)
    → resource sub o ≡ some r
    → resource (with_last_state sub o r id state) p ≡ some q
    → ((resource sub p ≡ some r) × (set_last_state r id state ≡ q)) ⊎ (resource sub p ≡ some q)
unfolding resource
resource-with_last_state-cases sub o p r q id state f e =
    let changed = resource-with_last_state sub o p r id state in
    elim (string_dec (text o) (text p)) [
      | yes same ↦ inl (ap (λ t. get sub.resources_by_object_id t) (sym same) ∙ f, ground arith)
      | no differs ↦ inr (ground arith)
    ]

with_last_state-IsReadable :
    (id : ModelId) (sub : MonitoringSubscription) (o : ObjectId) (r : Resource LastState)
    (sv : StopVisit)
    → resource sub o ≡ some r
    → IsReadable id sub
    → IsReadable id (with_last_state sub o r id (visit_state (update_state sv)))
with_last_state-IsReadable id sub o r sv f x p q e =
    let state = visit_state (update_state sv) in
    elim (resource-with_last_state-cases sub o p r q id state f e) [
      | inl (_, g) ↦
          let s : last_state q id ≡ some state =
            rw⁻¹ g (get-set r.last_states id state id ∙ ground arith) in
          rw s tt
      | inr g ↦ x p q g
    ]

with_last_state-IsSameResource :
    (id : ModelId) (before sub : MonitoringSubscription) (o p : ObjectId) (r : Resource LastState)
    (state : LastState)
    → resource sub o ≡ some r
    → IsSameResource id (resource before p) (resource sub p)
    → IsSameResource id (resource before p) (resource (with_last_state sub o r id state) p)
unfolding resource
with_last_state-IsSameResource id before sub o p r state f h =
    rw (resource-with_last_state sub o p r id state)
      (elim (string_dec (text o) (text p))
        as (λ d.
          IsSameResource id (resource before p)
            (ite d (some (set_last_state r id state)) (resource sub p))) [
              | yes same ↦ set_last_state-IsSameResource id (resource before p) r state (
                  subst (IsSameResource id (resource before p))
                    (ap (λ t. get sub.resources_by_object_id t) (sym same) ∙ f) h)
              | no differs ↦ h
            ])

pub with_last_state-IsTracked :
    (id : ModelId) (base : MonitoringSubscriptions) (sub : MonitoringSubscription) (o : ObjectId)
    (r : Resource LastState) (sv : StopVisit)
    → resource sub o ≡ some r
    → IsTracked id base sub
    → IsTracked id base (with_last_state sub o r id (visit_state (update_state sv)))
with_last_state-IsTracked id base sub o r sv f x =
    let state = visit_state (update_state sv) in
    let changed = set sub.resources_by_object_id (text o) (set_last_state r id state) in
    record {
      before = x.before;
      found_lem = x.found_lem;
      rest_lem =
          ap {A = MonitoringSubscription} {B = MonitoringSubscription}
            (λ s. record s { resources_by_object_id = changed }) x.rest_lem;
      resources_lem =
          λ p. with_last_state-IsSameResource id x.before sub o p r state f (x.resources_lem p);
      readable = with_last_state-IsReadable id sub o r sv f x.readable;
    }
