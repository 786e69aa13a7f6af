-- ===== src/LastStates/Changes.antt =====
-- When core/last_states.go reports a change.
use ara.Prelude.{
  ◌+◌, ◌≤◌, ◌<◌, String, ◌≡◌, ◌≢◌, ◌↔◌, ◌⊎◌, refl, true, false, not, ◌&&◌, ◌||◌, Option, List, [],
  ◌∷◌, arith, string_key,
}
use ara.GoMap.{get, IsDistinct}
use ara.Schedules.{Schedules, ScheduleType, Schedule, Time, zero_time, schedule, schedule_order}
use ara.Schedules
use ara.Schedules.Merging.{get-copy}
use ara.StopVisit.{StopVisit}
use ara.Subscription.{Subscription, subscription_option}
use ara.LastStates.{
  Groups, Duration, half, handle_time, is_before_sum, is_after_difference, times_changed, threshold,
  VisitState, update_state, is_final, status_changed, schedules_changed, monitoring_has_changed,
  timetable_has_changed, handle_arrival_status, handle_departure_status,
}

-- For a duration that is not negative, handleArrivalTime and handleDepartedTime report a time
-- exactly if it is set and the last one is not, or is the duration or more away from it.
pub handle_time_iff :
    (t last : Time) (duration : Duration)
    → duration < half
    → (handle_time t last duration ≡ true)
      ↔ ((t ≢ zero_time) × ((last ≡ zero_time) ⊎ ((last + duration ≤ t) ⊎ (t + duration ≤ last))))
unfolding handle_time is_before_sum is_after_difference
handle_time_iff t last duration h = ground arith

handle_time_self :
    (t : Time) (duration : Duration)
    → duration < half
    → 0 < duration
    → handle_time t t duration ≡ false
unfolding handle_time is_before_sum is_after_difference
handle_time_self t duration h p = ground arith

times_unchanged :
    (duration : Duration) (new last : Schedules) (kinds : List ScheduleType)
    → duration < half
    → 0 < duration
    → ((kind : ScheduleType) → get last kind ≡ get new kind)
    → times_changed duration new last kinds ≡ false
unfolding times_changed schedule
times_unchanged duration new last [] h p e = refl
times_unchanged duration new last (kind ∷ kinds) h p e = rw (e kind) ground (
  arith,
  handle_time_self (schedule new kind).arrival_time duration h p,
  handle_time_self (schedule new kind).departure_time duration h p,
  times_unchanged duration new last kinds h p e,
)

threshold_positive :
    (submatch : String → Option Groups) (option : String) → 0 < threshold submatch option
unfolding threshold
threshold_positive submatch option = ground arith

schedules_unchanged :
    (submatch : String → Option Groups) (option : String) (sv : StopVisit)
    → IsDistinct sv.schedules
    → option ≢ ""
    → threshold submatch option < half
    → schedules_changed submatch option (update_state sv) sv ≡ false
unfolding schedules_changed update_state
schedules_unchanged submatch option sv d o h = ground (
  arith,
  times_unchanged (threshold submatch option) sv.schedules (Schedules.copy sv.schedules)
      schedule_order h (threshold_positive submatch option) (λ kind. get-copy sv.schedules kind d),
)

status_unchanged : (sv : StopVisit) → status_changed (update_state sv) sv ≡ false
unfolding update_state handle_arrival_status handle_departure_status
status_unchanged sv = ground arith

module _ {S : Type 0} (submatch : String → Option Groups) where
  -- Right after UpdateState with a stop visit whose schedules have distinct types, Haschanged does
  -- not report that stop visit, where the subscription has the option ChangeBeforeUpdates and the
  -- duration read from it is not negative.
  pub monitoring_has_changed-update_state :
      (sub : Subscription S) (sv : StopVisit)
      → IsDistinct sv.schedules
      → subscription_option sub "ChangeBeforeUpdates" ≢ ""
      → threshold submatch (subscription_option sub "ChangeBeforeUpdates") < half
      → monitoring_has_changed submatch sub (update_state sv) sv ≡ false
  unfolding monitoring_has_changed
  monitoring_has_changed-update_state sub sv d o h = ground (
    arith,
    status_unchanged sv,
    schedules_unchanged submatch (subscription_option sub "ChangeBeforeUpdates") sv d o h,
  )

  -- Haschanged of the estimated timetable reports what Haschanged of the stop monitoring reports
  -- with the same state and, where the state is not final, also a vehicle that was not at the stop
  -- and now is.
  pub timetable_has_changed_lem :
      (sub : Subscription S) (state : VisitState) (sv : StopVisit)
      → timetable_has_changed submatch sub state sv ≡ (
          monitoring_has_changed submatch sub state sv
          || (not (is_final state) && (not state.vehicle_at_stop && sv.vehicle_at_stop)))
  unfolding timetable_has_changed monitoring_has_changed
  timetable_has_changed_lem sub state sv = ground arith
