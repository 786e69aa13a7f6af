-- ===== src/PartnersGuardian.antt =====
-- core/partner_guardian.go: what the guardian makes of the status of a partner, each 30 seconds.
-- Left out: the goroutines, the audit event, and the recovery of a panic. `ask` is Status of the
-- check status client of the partner, and `parse_bool` is strconv.ParseBool, false beside an error.

pub mod Subscribed
use ara.Prelude.{
  ◌+◌, String, Bool, true, false, not, ◌&&◌, ◌||◌, Option, none, some, ite, if◌then◌else◌,
  string_key, dec_lt,
}
use ara.Schedules.{Time, zero_time, is_zero, equals}
use ara.Subscriptions
use ara.Subscriptions.{Subscriptions}
use ara.PartnerSettings.{
  setting, collect_subscriptions_persistent, broadcast_subscriptions_persistent, Duration,
  discovery_interval,
}
use ara.Connectors.{same}
use ara.Subscriptions.Terminated.{check_all}
use ara.Partner.{Partner, PartnerStatus, check_status, up, down, unknown, discovered_at}

-- what HandlePartnerStatusChange of the collect manager is called with: the partner, and whether it
-- is up
abbrev pub Change : Type 0
Change = String × Bool

pub record Checked (C S : Type 0) : Type 0 where
  pub partner : Partner C S
  pub change : Option Change
  pub goes_on : Bool

abbrev pub is_down : PartnerStatus → Bool
is_down s = same s.operationnal_status unknown || same s.operationnal_status down

abbrev pub is_restarted : PartnerStatus → PartnerStatus → Bool
is_restarted old new =
    same new.operationnal_status up && not (equals new.service_started_at old.service_started_at)

abbrev pub unless :
    {S : Type 0} → Bool → (Subscriptions S → Subscriptions S) → Subscriptions S → Subscriptions S
unless true cancel subscriptions = subscriptions
unless false cancel subscriptions = cancel subscriptions

-- LastDiscovery().Before(now.Add(d))
unfoldable pub is_before_sum : Time → Time → Duration → Bool
is_before_sum last now d =
    if d.is_negative
    then ite (dec_lt (last + d.magnitude) now) true false
    else ite (dec_lt last (now + d.magnitude)) true false

module _ {C S : Type 0} where
  abbrev pub change_of : PartnerStatus → Partner C S → Option Change
  change_of new partner =
      if same new.operationnal_status partner.status.operationnal_status
      then none
      else some (partner.slug, same new.operationnal_status up)

  module _ (parse_bool : String → Bool) where
    abbrev pub is_persistent : Partner C S → String → Bool
    is_persistent partner key = parse_bool (setting partner.settings key)

    -- the branch of a partner that is unknown or down
    unfoldable pub put_down : PartnerStatus → Partner C S → Partner C S
    put_down new partner = record partner {
      status = record partner.status { operationnal_status = new.operationnal_status };
      last_discovery = zero_time;
      subscriptions =
          unless (is_persistent partner broadcast_subscriptions_persistent)
            Subscriptions.cancel_broadcast_subscriptions
            (unless (is_persistent partner collect_subscriptions_persistent)
              Subscriptions.cancel_collect_subscriptions partner.subscriptions);
    }

    -- checkPartnerStatus, with the status that CheckStatus gave
    unfoldable pub apply_status : PartnerStatus → Partner C S → Checked C S
    unfolding put_down
    apply_status new partner =
        if is_restarted partner.status new
        then record {
          partner = record partner {
            status = new;
            subscriptions = Subscriptions.cancel_subscriptions partner.subscriptions;
            last_discovery = zero_time;
          };
          change = change_of new partner;
          goes_on = false;
        }
        else if is_down new
        then record {
          partner = put_down new partner;
          change = change_of new partner;
          goes_on =
              is_persistent partner collect_subscriptions_persistent
              || is_persistent partner broadcast_subscriptions_persistent;
        }
        else record {
          partner = record partner { status = new };
          change = change_of new partner;
          goes_on = true;
        }

    unfoldable pub check_partner_status : (C → PartnerStatus) → Time → Partner C S → Checked C S
    unfolding apply_status check_status
    check_partner_status ask now partner = apply_status (check_status ask now partner) partner

  -- checkSubscriptionsTerminatedTime
  unfoldable pub check_subscriptions_terminated_time : Time → Partner C S → Partner C S
  unfolding check_all
  check_subscriptions_terminated_time now partner = record partner {
    subscriptions = check_all now partner.subscriptions partner.subscriptions;
  }

  -- checkPartnerDiscovery, and whether the partner was asked for its stop points
  unfoldable pub check_partner_discovery :
      (String → Duration) → Time → Partner C S → Partner C S × Bool
  unfolding is_before_sum discovery_interval
  check_partner_discovery parse_duration now partner =
      if not (same partner.status.operationnal_status up)
      then (partner, false)
      else if is_zero partner.last_discovery
          || is_before_sum partner.last_discovery now
              (discovery_interval parse_duration partner.settings)
      then (discovered_at now partner, true)
      else (partner, false)

  -- routineWork
  unfoldable pub routine_work :
      (String → Bool) → (String → Duration) → (C → PartnerStatus) → Time → Partner C S → Partner C S
  unfolding check_partner_status check_subscriptions_terminated_time check_partner_discovery
  routine_work parse_bool parse_duration ask now partner =
      let checked = check_partner_status parse_bool ask now partner in
      let checked_partner =
        if checked.goes_on
        then check_subscriptions_terminated_time now checked.partner
        else checked.partner in
      (check_partner_discovery parse_duration now checked_partner).0
