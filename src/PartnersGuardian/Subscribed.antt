-- ===== src/PartnersGuardian/Subscribed.antt =====
-- What the guardian of core/partner_guardian.go leaves of a partner's subscriptions.
use ara.Prelude.{
  String, ◌≡◌, refl, Bool, true, false, not, Option, none, some, if◌then◌else◌, arith, string_dec,
  string_key, sym, subst, differ, ◌≢◌, Bool-cases, inl, inr, ◌↔◌, ◌⊎◌,
}
use ara.GoMap.{get, IsDistinct}
use ara.GoMap.Loops.{sweep-IsDistinct}
use ara.Schedules.{zero_time, Stamp, equals}
use ara.Subscription.{Subscription, SubscriptionId}
use ara.Subscriptions
use ara.Subscriptions.{Subscriptions, is_external}
use ara.Subscriptions.Cancelling.{find-cancel, find-cancel_both}
use ara.PartnerSettings.{collect_subscriptions_persistent, broadcast_subscriptions_persistent}
use ara.Connectors.{same}
use ara.Partner.{Partner, PartnerStatus, up, down, unknown}
use ara.PartnersGuardian.{apply_status, put_down, is_persistent, is_restarted, is_down, unless}

module _ {S : Type 0} where
  -- a subscription stays if those of its side do
  abbrev pub stays : Bool → Bool → Option (Subscription S) → Option (Subscription S)
  stays collect broadcast none = none
  stays collect broadcast (some sub) =
      if same sub.external_id ""
      then (if collect then some sub else none)
      else (if broadcast then some sub else none)

  cancel_collect-IsDistinct :
      (m : Subscriptions S)
      → IsDistinct m
      → IsDistinct (Subscriptions.cancel_collect_subscriptions m)
  unfolding Subscriptions.cancel_collect_subscriptions
  cancel_collect-IsDistinct m d = sweep-IsDistinct (λ id sub. not (is_external id sub)) m m d

  find-unless :
      (m : Subscriptions S) (collect broadcast : Bool) (id : SubscriptionId)
      → IsDistinct m
      → get
          (unless broadcast Subscriptions.cancel_broadcast_subscriptions
            (unless collect Subscriptions.cancel_collect_subscriptions m))
          id
        ≡ stays collect broadcast (get m id)
  find-unless m true true id d = ground arith
  find-unless m true false id d = ground (arith, find-cancel m id d)
  find-unless m false true id d = ground (arith, find-cancel m id d)
  find-unless m false false id d = ground (
    arith,
    find-cancel m id d,
    find-cancel (Subscriptions.cancel_collect_subscriptions m) id (cancel_collect-IsDistinct m d),
  )

apart_unknown : up ≢ unknown
unfolding string_dec
apart_unknown = differ up unknown refl

apart_down : up ≢ down
unfolding string_dec
apart_down = differ up down refl

not_down : (new : PartnerStatus) → new.operationnal_status ≡ up → is_down new ≡ false
not_down new u = ground (arith, apart_unknown, apart_down)

not_restarted : (new : PartnerStatus) → is_restarted new new ≡ false
not_restarted new = ground arith

not_changed : (new : PartnerStatus) → same new.operationnal_status new.operationnal_status ≡ true
not_changed new = ground arith

equals_iff : (t u : Stamp) → (equals t u ≡ true) ↔ (t ≡ u)
equals_iff t u = (
  λ e.
      let p : t.instant ≡ u.instant = ground arith in
      let q : t.reading ≡ u.reading = ground arith in
      let r : t.location ≡ u.location = ground arith in
      λ i. record { instant = p i; reading = q i; location = r i },
  λ e. rw e (ground arith),
)

is_restarted_iff :
    (old new : PartnerStatus)
    → (is_restarted old new ≡ true)
      ↔ ((new.operationnal_status ≡ up) × (new.service_started_at ≢ old.service_started_at))
is_restarted_iff old new = ground (arith, equals_iff new.service_started_at old.service_started_at)

is_down_iff :
    (new : PartnerStatus)
    → (is_down new ≡ true)
      ↔ ((new.operationnal_status ≡ unknown) ⊎ (new.operationnal_status ≡ down))
is_down_iff new = ground arith

module _ {C S : Type 0} (parse_bool : String → Bool) where
  -- On a partner whose subscriptions have distinct ids, after the check none is left if the
  -- partner is up since a start that is not the one before as Go compares two times with `==`, the
  -- location included; if it is unknown or down, those of the collect stay exactly if the setting
  -- says that they persist, and likewise those of the broadcast; else all stay. In every case the
  -- partner has the operational status that was found. The tests for this hold exactly if the
  -- status and the start are so.
  pub find-apply_status :
      (new : PartnerStatus) (partner : Partner C S) (id : SubscriptionId)
      → IsDistinct partner.subscriptions
      → (get (apply_status parse_bool new partner).partner.subscriptions id ≡ (
          if is_restarted partner.status new
          then none
          else if is_down new
          then stays
              (is_persistent parse_bool partner collect_subscriptions_persistent)
              (is_persistent parse_bool partner broadcast_subscriptions_persistent)
              (get partner.subscriptions id)
          else get partner.subscriptions id))
        × ((apply_status parse_bool new partner).partner.status.operationnal_status
            ≡ new.operationnal_status)
        × ((is_restarted partner.status new ≡ true) ↔ (
            (new.operationnal_status ≡ up)
            × (new.service_started_at ≢ partner.status.service_started_at)))
        × ((is_down new ≡ true)
            ↔ ((new.operationnal_status ≡ unknown) ⊎ (new.operationnal_status ≡ down)))
  unfolding apply_status put_down
  find-apply_status new partner id d =
      let collect = is_persistent parse_bool partner collect_subscriptions_persistent in
      let broadcast = is_persistent parse_bool partner broadcast_subscriptions_persistent in
      (
        ground (
          arith,
          find-unless partner.subscriptions collect broadcast id d,
          find-cancel_both partner.subscriptions id d,
        ),
        ground arith,
        is_restarted_iff partner.status new,
        is_down_iff new,
      )

  -- what holds of a check that gives the status that the partner has
  abbrev pub IsSettled : PartnerStatus → Partner C S → Type 0
  IsSettled new q =
      ((apply_status parse_bool new q).goes_on ≡ true)
      × ((apply_status parse_bool new q).change ≡ none)
      × ((apply_status parse_bool new q).partner ≡ q)

  again :
      (new : PartnerStatus) (q : Partner C S)
      → new.operationnal_status ≡ up
      → IsSettled new (record q { status = new })
  unfolding apply_status
  again new q u = (
    rw (not_restarted new, not_down new u) refl,
    rw (not_restarted new, not_down new u, not_changed new) refl,
    rw (not_restarted new, not_down new u) refl,
  )

  first_check :
      (new : PartnerStatus) (partner : Partner C S)
      → new.operationnal_status ≡ up
      → (q : Partner C S) × ((apply_status parse_bool new partner).partner
          ≡ record q { status = new })
  unfolding apply_status
  first_check new partner u = elim (Bool-cases (is_restarted partner.status new)) [
    | inl e ↦ (
      record partner {
        subscriptions = Subscriptions.cancel_subscriptions partner.subscriptions;
        last_discovery = zero_time;
      },
      rw e refl,
    )
    | inr e ↦ (partner, rw (e, not_down new u) refl)
  ]

  -- From any state, where a partner answers up to two checks with the same start, the location of
  -- the time included, it is let through at the second, which reports no change and leaves the
  -- partner as the first one did.
  pub apply_status-settles :
      (new : PartnerStatus) (partner : Partner C S)
      → new.operationnal_status ≡ up
      → IsSettled new (apply_status parse_bool new partner).partner
  apply_status-settles new partner u =
      let (q, e) = first_check new partner u in subst (IsSettled new) (sym e) (again new q u)
