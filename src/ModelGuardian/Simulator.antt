-- ===== src/ModelGuardian/Simulator.antt =====
-- The ActualAttributesSimulator of core/model_guardian.go: a stop visit that is no longer collected
-- arrives and departs when its times have come. The clock gives one time within a call.
use ara.Prelude.{
  ℕ, ◌+◌, ◌<◌, ◌≤◌, String, ◌≡◌, refl, Bool, true, false, ◌&&◌, Option, none, some, List, [], ◌∷◌,
  ite, if◌then◌else◌, string_dec, arith,
}
use ara.Schedules.{
  Time, expected, aimed, actual, arrival_time_from_kind, departure_time_from_kind, set_arrival_time,
  set_departure_time,
}
use ara.StopVisit.{StopVisit, stop_visit_entity, is_after, arrival_cancelled}
use ara.StopVisits
use ara.Model.{MemoryModel}

abbrev pub departure_cancelled : String
departure_cancelled = "cancelled"

-- ArrivalTime, DepartureTime
unfoldable pub arrival_time : StopVisit → Time
arrival_time sv = arrival_time_from_kind sv.schedules (some (expected ∷ aimed ∷ []))

unfoldable pub departure_time : StopVisit → Time
departure_time sv = departure_time_from_kind sv.schedules (some (expected ∷ aimed ∷ []))

abbrev pub is_expected : String → Bool
is_expected status =
    ite (string_dec status "onTime") true
      (ite (string_dec status "early") true (ite (string_dec status "delayed") true false))

-- CanArrive, CanDepart
abbrev pub can_arrive : StopVisit → Bool
can_arrive sv = is_expected sv.arrival_status

abbrev pub can_depart : StopVisit → Bool
can_depart sv = is_expected sv.departure_status

-- what simulateArrival writes
unfoldable pub arrived : Time → StopVisit → StopVisit
unfolding arrival_time departure_time
arrived now sv = record sv {
  arrival_status = arrival_cancelled;
  schedules = set_arrival_time sv.schedules actual (arrival_time sv);
  vehicle_at_stop =
      if is_after now (
        departure_time
          (record sv { schedules = set_arrival_time sv.schedules actual (arrival_time sv) }))
      then sv.vehicle_at_stop
      else true;
}

-- what simulateDeparture writes
unfoldable pub departed : StopVisit → StopVisit
unfolding departure_time
departed sv = record sv {
  departure_status = departure_cancelled;
  schedules = set_departure_time sv.schedules actual (departure_time sv);
  vehicle_at_stop = false;
}

-- Simulate
unfoldable pub simulate : Time → StopVisit → StopVisit × Bool
unfolding arrived departed
simulate now sv =
    if sv.collected
    then (sv, false)
    else if is_after now (arrival_time sv) && can_arrive sv
    then (arrived now sv, true)
    else if is_after now (departure_time sv) && can_depart sv
    then (departed sv, true)
    else (sv, false)

-- the body of the loop of simulateActualAttributes, on a copy that the transaction finds; a changed
-- one is saved in the model
abbrev pub keep_if : MemoryModel → StopVisit × Bool → MemoryModel
keep_if model (sv, true) = record model {
  stop_visits = (StopVisits.save model.stop_visits "" sv).0;
}
keep_if model (sv, false) = model

abbrev pub simulate_found : Time → MemoryModel → Option StopVisit → MemoryModel
simulate_found now model none = model
simulate_found now model (some sv) = keep_if model (simulate now sv)

unfoldable pub simulate_each : Time → List StopVisit → MemoryModel → MemoryModel
unfolding simulate
simulate_each now [] model = model
simulate_each now (sv ∷ rest) model = simulate_each now rest (
    if sv.collected
    then model
    else simulate_found now model (StopVisits.find model.stop_visits sv.id))

-- simulateActualAttributes
unfoldable pub simulate_actual_attributes : Time → MemoryModel → MemoryModel
unfolding simulate_each
simulate_actual_attributes now model =
    simulate_each now (StopVisits.find_all model.stop_visits) model

-- the changes that may still come
abbrev pub one_if : Bool → ℕ
one_if true = 1
one_if false = 0

abbrev pub steps_left : StopVisit → ℕ
steps_left sv = one_if (can_arrive sv) + one_if (can_depart sv)

cancelled_is_not_expected : is_expected "cancelled" ≡ false
unfolding string_dec
cancelled_is_not_expected = refl

-- A stop visit that Simulate changes has fewer changes left than before, of at most two: one to
-- arrive and one to depart.
pub simulate-decreases :
    (now : Time) (sv : StopVisit)
    → (simulate now sv).1 ≡ true
    → (steps_left (simulate now sv).0 < steps_left sv) × (steps_left sv ≤ 2)
unfolding simulate arrived departed
simulate-decreases now sv h = (ground (arith, cancelled_is_not_expected), ground arith)
