-- ===== src/Subscriptions.antt =====
-- core/subscription.go, the manager MemorySubscriptions of the subscriptions of a partner.
-- The finders return pointers that are shared with the manager; a change to a subscription that was
-- found is `save` of the changed value here.
pub mod Cancelling
pub mod Creating
pub mod Terminated
use ara.Prelude.{
  ℕ, zero, suc, String, Bool, true, false, not, ◌&&◌, ◌||◌, Option, none, some, List, [], ◌∷◌, ite,
  if◌then◌else◌, dec_lt, ℕ_discrete, string_dec, string_key,
}
use ara.GoMap.{Map, get, set, delete}
use ara.GoMap.Loops.{sweep}
use ara.Subscription.{Subscription, SubscriptionId, resources_len}

abbrev pub Subscriptions : Type 0 → Type 0
Subscriptions S = Map SubscriptionId (Subscription S)

-- strings.HasSuffix
abbrev pub same : String → String → Bool
same a b = ite (string_dec a b) true false

unfoldable pub has_suffix : String → String → Bool
has_suffix String.[] suffix = same String.[] suffix
has_suffix (String.◌∷◌ c s) suffix =
    let shorter = has_suffix s suffix in if same (String.◌∷◌ c s) suffix then true else shorter

module _ {S : Type 0} where
  -- the subscription that New allocates, before it is saved
  abbrev pub blank : String → Subscription S
  blank kind = record {
    id = "";
    kind = kind;
    external_id = "";
    resources_by_object_id = [];
    subscription_options = [];
  }

  -- Save; `generated` is the identifier that the partner's generator would give
  unfoldable pub identified : String → Subscription S → Subscription S
  identified generated sub = ite (string_dec sub.id "") (record sub { id = generated }) sub

  unfoldable pub save : Subscriptions S → String → Subscription S → Subscriptions S × Subscription S
  unfolding identified
  save manager generated sub =
      let saved = identified generated sub in (set manager saved.id saved, saved)

  -- New
  unfoldable pub new : Subscriptions S → String → String → Subscriptions S × Subscription S
  unfolding save
  new manager generated kind = save manager generated (blank kind)

  -- the loops that return the first subscription that passes a test
  unfoldable pub first : (Subscription S → Bool) → Subscriptions S → Option (Subscription S)
  first test [] = none
  first test ((_, sub) ∷ rest) = let later = first test rest in if test sub then some sub else later

  -- the loops that return all of them
  unfoldable pub select : (Subscription S → Bool) → Subscriptions S → List (Subscription S)
  select test [] = []
  select test ((_, sub) ∷ rest) =
      let later = select test rest in if test sub then sub ∷ later else later

  -- FindByKind
  unfoldable pub find_by_kind : Subscriptions S → String → Option (Subscription S)
  unfolding first
  find_by_kind manager kind = first (λ sub. same sub.kind kind) manager

  -- FindSubscriptionsByKind
  unfoldable pub find_subscriptions_by_kind : Subscriptions S → String → List (Subscription S)
  unfolding select
  find_subscriptions_by_kind manager kind = select (λ sub. same sub.kind kind) manager

  -- FindBroadcastSubscriptions
  unfoldable pub find_broadcast_subscriptions : Subscriptions S → List (Subscription S)
  unfolding select has_suffix
  find_broadcast_subscriptions manager = select (λ sub. has_suffix sub.kind "Broadcast") manager

  -- FindByExternalId
  unfoldable pub find_by_external_id : Subscriptions S → String → Option (Subscription S)
  unfolding first
  find_by_external_id manager external_id = first (λ sub. same sub.external_id external_id) manager

  abbrev pub has_resource : Subscription S → String → Bool
  has_resource sub id = elim (get sub.resources_by_object_id id) [ none ↦ false | some r ↦ true ]

  -- FindByResourceId
  unfoldable pub find_by_resource_id : Subscriptions S → String → String → List (Subscription S)
  unfolding select
  find_by_resource_id manager id kind =
      select (λ sub. has_resource sub id && same sub.kind kind) manager

  -- the test of FindOrCreateByKind: a maximum below 1 is no limit
  unfoldable pub has_room : ℕ → String → Subscription S → Bool
  has_room max_resource kind sub =
      same sub.kind kind
      && (ite (dec_lt max_resource 1) true false
          || ite (dec_lt (resources_len sub) max_resource) true false)

  unfoldable pub or_new :
      Subscriptions S → String → String → Option (Subscription S) → Subscriptions S × Subscription S
  unfolding new
  or_new manager generated kind none = new manager generated kind
  or_new manager generated kind (some sub) = (manager, sub)

  -- FindOrCreateByKind; a setting that is no number, or is negative, is the maximum 0
  unfoldable pub find_or_create_by_kind :
      ℕ → Subscriptions S → String → String → Subscriptions S × Subscription S
  unfolding new first has_room or_new
  find_or_create_by_kind max_resource manager generated kind =
      ite (ℕ_discrete max_resource 1) (new manager generated kind)
        (or_new manager generated kind (first (has_room max_resource kind) manager))

  -- Find
  abbrev pub find : Subscriptions S → SubscriptionId → Option (Subscription S)
  find manager id = get manager id

  -- Delete, DeleteById
  unfoldable pub remove : Subscriptions S → SubscriptionId → Subscriptions S
  remove manager id = delete manager id

  -- CancelSubscriptions
  unfoldable pub cancel_subscriptions : Subscriptions S → Subscriptions S
  cancel_subscriptions manager = sweep (λ _ _. true) manager manager

  abbrev pub is_external : SubscriptionId → Subscription S → Bool
  is_external id sub = not (same sub.external_id "")

  -- CancelBroadcastSubscriptions
  unfoldable pub cancel_broadcast_subscriptions : Subscriptions S → Subscriptions S
  cancel_broadcast_subscriptions manager = sweep is_external manager manager

  -- CancelCollectSubscriptions
  unfoldable pub cancel_collect_subscriptions : Subscriptions S → Subscriptions S
  cancel_collect_subscriptions manager = sweep (λ id sub. not (is_external id sub)) manager manager
