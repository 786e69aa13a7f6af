-- ===== src/StopMonitoringBroadcaster/Lists.antt =====
-- Predicates on all subscriptions of a manager, and on all items of the lists of checkEvent.
use ara.Prelude.{Bool, true, false, List, [], ◌∷◌, ◌++◌, ite, if◌then◌else◌, string_dec, string_key}
use ara.GoMap.{set, delete}
use ara.ObjectId.{ObjectId}
use ara.Subscription.{SubscriptionId, Subscription}
use ara.Subscriptions.{Subscriptions, select}

module _ {S : Type 0} where
  abbrev pub AllIn : (Subscription S → Type 0) → Subscriptions S → Type 0
  AllIn P [] = Unit
  AllIn P ((_, sub) ∷ rest) = P sub × AllIn P rest

  abbrev pub AllOf : (Subscription S → Type 0) → List (Subscription S) → Type 0
  AllOf P [] = Unit
  AllOf P (sub ∷ rest) = P sub × AllOf P rest

  delete-AllIn :
      (P : Subscription S → Type 0) (m : Subscriptions S) (id : SubscriptionId)
      → AllIn P m
      → AllIn P (delete m id)
  unfolding delete
  delete-AllIn P [] id a = a
  delete-AllIn P ((k, sub) ∷ rest) id (p, a) =
      elim (string_dec k id)
        as (λ d. AllIn P (ite d (delete rest id) ((k, sub) ∷ delete rest id))) [
          | yes e ↦ delete-AllIn P rest id a
          | no n ↦ (p, delete-AllIn P rest id a)
        ]

  pub set-AllIn :
      (P : Subscription S → Type 0) (m : Subscriptions S) (id : SubscriptionId)
      (sub : Subscription S)
      → P sub
      → AllIn P m
      → AllIn P (set m id sub)
  unfolding set
  set-AllIn P m id sub p a = (p, delete-AllIn P m id a)

  pub select-AllOf :
      (P : Subscription S → Type 0) (test : Subscription S → Bool) (m : Subscriptions S)
      → AllIn P m
      → AllOf P (select test m)
  unfolding select
  select-AllOf P test [] a = tt
  select-AllOf P test ((k, sub) ∷ rest) (p, a) =
      elim (test sub) as (λ b. AllOf P (if b then sub ∷ select test rest else select test rest)) [
        | true ↦ (p, select-AllOf P test rest a)
        | false ↦ select-AllOf P test rest a
      ]

abbrev pub AllIds : (SubscriptionId → Type 0) → List SubscriptionId → Type 0
AllIds P [] = Unit
AllIds P (id ∷ ids) = P id × AllIds P ids

pub append-AllIds :
    (P : SubscriptionId → Type 0) (ids : List SubscriptionId) (id : SubscriptionId)
    → AllIds P ids
    → P id
    → AllIds P (ids ++ id ∷ [])
append-AllIds P [] id a p = (p, tt)
append-AllIds P (i ∷ ids) id (q, a) p = (q, append-AllIds P ids id a p)

abbrev pub AllObjects : (ObjectId → Type 0) → List ObjectId → Type 0
AllObjects Q [] = Unit
AllObjects Q (o ∷ os) = Q o × AllObjects Q os
