-- ===== src/LastStates.antt =====
-- core/last_states.go: what was last sent to a subscriber, and whether a model has changed enough
-- since to be sent again. A time.Duration is an int64, as its value modulo 2 ^ 64.
-- The regular expression of getOptionDuration is read by package regexp: its seven groups are an
-- argument, for each text that it matches.
pub mod Changes
use Prim.Native.Char.{code}
use ara.Prelude.{
  ℕ, zero, suc, ◌+◌, ◌-◌, ◌*◌, String, Bool, true, false, not, ◌&&◌, ◌||◌, Option, none, some, List,
  [], ◌∷◌, ite, if◌then◌else◌, dec_lt, dec_le, ℕ_discrete, string_dec, string_key,
}
use Prim.Native.Nat.{◌/◌, ◌%◌}
use ara.Credentials.{trim_space}
use ara.Origins
use ara.Origins.{Origins}
use ara.Schedules.{
  Time, Schedule, Schedules, ScheduleType, schedule, is_zero, same_time, schedule_order,
}
use ara.Schedules
use ara.StopArea.{StopArea}
use ara.StopVisit.{StopVisit}
use ara.Subscription.{Subscription, subscription_option}

abbrev pub Duration : Type 0
Duration = ℕ

abbrev pub wrap : ℕ → Duration
wrap n = n % 0x10000000000000000

abbrev pub half : ℕ
half = 0x8000000000000000

-- t.Before(u.Add(d)), t.After(u.Add(-d)); -d of the least int64 is itself
unfoldable pub is_before_sum : Time → Time → Duration → Bool
is_before_sum t u d =
    ite (dec_lt d half) (ite (dec_lt t (u + d)) true false)
      (ite (dec_lt (t + (0x10000000000000000 - d)) u) true false)

unfoldable pub is_after_difference : Time → Time → Duration → Bool
is_after_difference t u d =
    ite (dec_le d half) (ite (dec_lt u (t + d)) true false)
      (ite (dec_lt (u + (0x10000000000000000 - d)) t) true false)

-- handleArrivalTime, handleDepartedTime, on the two times
unfoldable pub handle_time : Time → Time → Duration → Bool
unfolding is_before_sum is_after_difference
handle_time t last duration =
    if is_zero t
    then false
    else if is_zero last
    then true
    else not (is_before_sum t last duration && is_after_difference t last duration)

abbrev pub same : String → String → Bool
same a b = ite (string_dec a b) true false

-- handleArrivalStatus
unfoldable pub handle_arrival_status : String → String → Bool
handle_arrival_status status last =
    if same status last
    then false
    else same status "missed"
      || same status "notExpected"
      || same status "cancelled"
      || same status "noreport"

-- handleDepartureStatus
unfoldable pub handle_departure_status : String → String → Bool
handle_departure_status status last =
    if same status last
    then false
    else same status "noreport" || same status "cancelled" || same status "departed"

-- strconv.Atoi on digits, and 0 on an error, which is a number above the int64 or no digit at all
unfoldable pub digits : ℕ → String → ℕ
digits n String.[] = n
digits n (String.◌∷◌ c s) = digits (n * 10 + (code c - 48)) s

unfoldable pub parse_duration : String → Duration
unfolding digits
parse_duration value = ite (dec_lt (digits 0 value) half) (digits 0 value) 0

-- durationPow: the loop halves b, so b rounds are enough
unfoldable pub pow_loop : ℕ → ℕ → ℕ → ℕ → ℕ
pow_loop zero p a b = p
pow_loop (suc fuel) p a b =
    ite (ℕ_discrete b 0) p
      (pow_loop fuel (ite (ℕ_discrete (b % 2) 0) p (wrap (p * a))) (wrap (a * a)) (b / 2))

unfoldable pub duration_pow : ℕ → ℕ → Duration
unfolding pow_loop
duration_pow a b = pow_loop b 1 a b

unfoldable pub length : String → ℕ
length String.[] = 0
length (String.◌∷◌ c s) = length s + 1

-- the groups of a match: "" for one that took no part in it, at most three digits for the last
pub record Groups : Type 0 where
  pub years : String
  pub months : String
  pub days : String
  pub hours : String
  pub minutes : String
  pub seconds : String
  pub rest : String

abbrev pub second : ℕ
second = 1000000000

abbrev pub minute : ℕ
minute = 60 * second

unfoldable pub duration_of : Option Groups → Duration
unfolding parse_duration duration_pow length
duration_of none = 0
duration_of (some g) = wrap (
    parse_duration g.years * (24 * 365 * (60 * minute))
    + parse_duration g.months * (30 * 24 * (60 * minute))
    + parse_duration g.days * (24 * (60 * minute))
    + parse_duration g.hours * (60 * minute)
    + parse_duration g.minutes * minute
    + parse_duration g.seconds * second
    + parse_duration g.rest * duration_pow 10 (3 - length g.rest) * 1000000)

-- getOptionDuration
unfoldable pub option_duration : (String → Option Groups) → String → Duration
unfolding duration_of
option_duration submatch option = duration_of (submatch (trim_space option))

-- the duration that Haschanged uses
unfoldable pub threshold : (String → Option Groups) → String → Duration
unfolding option_duration
threshold submatch option =
    ite (ℕ_discrete (option_duration submatch option) 0) minute (option_duration submatch option)

-- the last loop of Haschanged
unfoldable pub times_changed : Duration → Schedules → Schedules → List ScheduleType → Bool
unfolding handle_time
times_changed duration new last [] = false
times_changed duration new last (kind ∷ kinds) =
    let rest = times_changed duration new last kinds in
    if handle_time (schedule new kind).arrival_time (schedule last kind).arrival_time duration
      || handle_time (schedule new kind).departure_time (schedule last kind).departure_time duration
    then true
    else rest

-- stopMonitoringLastChange and estimatedTimeTableLastChange; only the second reads the vehicle
pub record VisitState : Type 0 where
  pub schedules : Schedules
  pub departure_status : String
  pub arrival_status : String
  pub vehicle_at_stop : Bool

-- UpdateState
unfoldable pub update_state : StopVisit → VisitState
update_state sv = record {
  schedules = Schedules.copy sv.schedules;
  departure_status = sv.departure_status;
  arrival_status = sv.arrival_status;
  vehicle_at_stop = sv.vehicle_at_stop;
}

-- the first test of Haschanged
abbrev pub is_final : VisitState → Bool
is_final state =
    same state.departure_status "departed"
    || same state.departure_status "cancelled"
    || same state.arrival_status "cancelled"

abbrev pub status_changed : VisitState → StopVisit → Bool
status_changed state sv =
    handle_arrival_status sv.arrival_status state.arrival_status
    || handle_departure_status sv.departure_status state.departure_status

-- the end of Haschanged, on the option ChangeBeforeUpdates
unfoldable pub schedules_changed : (String → Option Groups) → String → VisitState → StopVisit → Bool
unfolding times_changed
schedules_changed submatch option state sv =
    ite (string_dec option "") true
      (times_changed (threshold submatch option) sv.schedules state.schedules schedule_order)

module _ {S : Type 0} (submatch : String → Option Groups) where
  -- stopMonitoringLastChange.Haschanged
  unfoldable pub monitoring_has_changed : Subscription S → VisitState → StopVisit → Bool
  unfolding schedules_changed
  monitoring_has_changed sub state sv =
      if is_final state
      then false
      else if status_changed state sv
      then true
      else schedules_changed submatch (subscription_option sub "ChangeBeforeUpdates") state sv

  -- estimatedTimeTableLastChange.Haschanged
  unfoldable pub timetable_has_changed : Subscription S → VisitState → StopVisit → Bool
  unfolding schedules_changed
  timetable_has_changed sub state sv =
      if is_final state
      then false
      else if status_changed state sv
      then true
      else if (if state.vehicle_at_stop then false else sv.vehicle_at_stop)
      then true
      else schedules_changed submatch (subscription_option sub "ChangeBeforeUpdates") state sv

-- stopAreaLastChange: UpdateState and Haschanged
unfoldable pub update_origins : StopArea → Origins
update_origins sa = Origins.copy sa.origins

unfoldable pub area_has_changed : Origins → StopArea → List String × Bool
area_has_changed last sa = Origins.partners_lost last (some sa.origins)

-- generalMessageLastChange.Haschanged, on the times of record
unfoldable pub message_has_changed : Time → Time → Bool
message_has_changed last recorded_at = not (same_time recorded_at last)
