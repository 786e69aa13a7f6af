-- ===== src/Subscriptions/Creating.antt =====
-- FindOrCreateByKind of core/subscription.go.
use ara.Prelude.{
  ℕ, ◌≤◌, ◌<◌, String, ◌≡◌, refl, Bool, true, Option, none, some, [], ◌∷◌, ite, arith, ℕ_discrete,
  string_key, Bool-cases, inl, inr,
}
use ara.GoMap.{get, get-set, IsDistinct}
use ara.Subscription.{Subscription, SubscriptionId, resources_len}
use ara.Subscriptions.{
  Subscriptions, find, blank, identified, save, new, first, has_room, or_new,
  find_or_create_by_kind,
}

module _ {S : Type 0} where
  -- Every subscription stands under its own id.
  abbrev pub IsFiled : Subscriptions S → Type 0
  IsFiled manager =
      (id : SubscriptionId) (sub : Subscription S) → get manager id ≡ some sub → sub.id ≡ id

  -- a subscription of the kind that is kept by the manager and has room for one more resource
  pub record Serves (max_resource : ℕ) (kind : String) (result : Subscriptions S × Subscription S)
      : Type 0 where
    pub of_kind : result.1.kind ≡ kind
    pub stored : find result.0 result.1.id ≡ some result.1
    pub room : 1 ≤ max_resource → resources_len result.1 < max_resource

  new-Serves :
      (max_resource : ℕ) (manager : Subscriptions S) (generated kind : String)
      → Serves max_resource kind (new manager generated kind)
  unfolding new save identified resources_len
  new-Serves max_resource manager generated kind = record {
    of_kind = ground arith;
    stored = ground (
      arith,
      get-set manager generated (record (blank {S = S} kind) { id = generated }) generated,
    );
    room = λ h. ground arith;
  }

  first-some :
      (test : Subscription S → Bool) (manager : Subscriptions S) (sub : Subscription S)
      → IsDistinct manager
      → first test manager ≡ some sub
      → (id : SubscriptionId) × (get manager id ≡ some sub) × (test sub ≡ true)
  unfolding first get
  first-some test [] sub d e = cc
  first-some test ((id, s) ∷ rest) sub d e = elim (Bool-cases (test s)) [
    | inl t ↦ (id, ground arith, ground arith)
    | inr f ↦ let (j, g, t) = first-some test rest sub d.1 (ground arith) in (j, ground arith, t)
  ]

  or_new-Serves :
      (max_resource : ℕ) (manager : Subscriptions S) (generated kind : String)
      (r : Option (Subscription S))
      → IsDistinct manager
      → IsFiled manager
      → first (has_room max_resource kind) manager ≡ r
      → Serves max_resource kind (or_new manager generated kind r)
  unfolding or_new
  or_new-Serves max_resource manager generated kind none d f e =
      new-Serves max_resource manager generated kind
  or_new-Serves max_resource manager generated kind (some sub) d f e =
      let (id, g, t) = first-some (has_room max_resource kind) manager sub d e in
      record {
        of_kind = unfold has_room in ground arith;
        stored = ground (arith, f id sub g);
        room = λ h. unfold has_room in ground arith;
      }

  -- On a manager with distinct keys whose subscriptions stand under their own ids, whatever the
  -- limit, FindOrCreateByKind gives a subscription of the kind that is kept by the resulting
  -- manager and, where the limit is at least 1, has fewer resources than the limit.
  pub find_or_create_by_kind-Serves :
      (max_resource : ℕ) (manager : Subscriptions S) (generated kind : String)
      → IsDistinct manager
      → IsFiled manager
      → Serves max_resource kind (find_or_create_by_kind max_resource manager generated kind)
  unfolding find_or_create_by_kind
  find_or_create_by_kind-Serves max_resource manager generated kind d f =
      elim (ℕ_discrete max_resource 1)
        as (λ c. Serves max_resource kind (
          ite c (new manager generated kind)
            (or_new manager generated kind (first (has_room max_resource kind) manager)))) [
              | yes _ ↦ new-Serves max_resource manager generated kind
              | no _ ↦ or_new-Serves max_resource manager generated kind _ d f refl
            ]
