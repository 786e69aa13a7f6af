-- ===== src/Schedules/Reading.antt =====
-- The reads of model/stop_visit_schedule.go and the reference times of model/stop_visit.go.
use ara.Prelude.{
  inl, inr, Option-cases, ◌≡◌, ◌≢◌, ◌↔◌, refl, none, some, List, [], ◌∷◌, arith, string_key,
}
use ara.GoMap.{get}
use ara.Schedules.{
  Schedule, Schedules, ScheduleType, Time, zero_time, expected, actual, schedule, time_from,
  first_set, reference_arrival_time, reference_departure_time, reference_time,
  arrival_time_from_kind, schedule_order,
}

-- no type of the list has the time set
abbrev pub NoneSet : (Schedule → Time) → Schedules → List ScheduleType → Type 0
NoneSet time s [] = Unit
NoneSet time s (kind ∷ kinds) = (time (schedule s kind) ≡ zero_time) × NoneSet time s kinds

first_set-eq-zero_time :
    (time : Schedule → Time) (s : Schedules) (kinds : List ScheduleType)
    → (first_set time s kinds ≡ zero_time) ↔ NoneSet time s kinds
unfolding first_set
first_set-eq-zero_time time s [] = (λ _. tt, λ _. refl)
first_set-eq-zero_time time s (kind ∷ kinds) = ground (arith, first_set-eq-zero_time time s kinds)

-- The reference time is the zero time exactly if no arrival and no departure of the three types is
-- set.
pub reference_time-eq-zero_time :
    (s : Schedules)
    → (reference_time s ≡ zero_time) ↔ (
        NoneSet (λ sc. sc.arrival_time) s schedule_order
        × NoneSet (λ sc. sc.departure_time) s schedule_order)
unfolding reference_time reference_arrival_time reference_departure_time
reference_time-eq-zero_time s = ground (
  arith,
  first_set-eq-zero_time (λ sc. sc.arrival_time) s schedule_order,
  first_set-eq-zero_time (λ sc. sc.departure_time) s schedule_order,
)

-- every entry of these types has the time set
abbrev pub AllSet : (Schedule → Time) → Schedules → List ScheduleType → Type 0
AllSet time s [] = Unit
AllSet time s (kind ∷ kinds) =
    ((sc : Schedule) → get s kind ≡ some sc → time sc ≢ zero_time) × AllSet time s kinds

time_from-eq-first_set :
    (time : Schedule → Time) (s : Schedules) (kinds : List ScheduleType)
    → AllSet time s kinds
    → ((time (record { kind = ""; departure_time = 0; arrival_time = 0 })) ≡ zero_time)
    → time_from time s kinds ≡ first_set time s kinds
unfolding time_from first_set schedule
time_from-eq-first_set time s [] h z = refl
time_from-eq-first_set time s (kind ∷ kinds) h z = elim (Option-cases (get s kind)) [
  | inl e ↦ ground (arith, time_from-eq-first_set time s kinds h.1 z)
  | inr (sc, e) ↦ ground (arith, h.0 sc e)
]

-- ArrivalTimeFromKind with no kinds given and ReferenceArrivalTime agree where every entry has an arrival time.
pub arrival_time_from_kind-eq-reference :
    (s : Schedules)
    → AllSet (λ sc. sc.arrival_time) s schedule_order
    → arrival_time_from_kind s none ≡ reference_arrival_time s
unfolding arrival_time_from_kind reference_arrival_time
arrival_time_from_kind-eq-reference s h =
    time_from-eq-first_set (λ sc. sc.arrival_time) s schedule_order h refl

-- They differ where the first entry present has no arrival time and a later one has.
pub arrival_time_from_kind-ne-reference :
    (s : Schedules) (sc : Schedule)
    → get s actual ≡ some sc
    → sc.arrival_time ≡ zero_time
    → (schedule s expected).arrival_time ≢ zero_time
    → arrival_time_from_kind s none ≢ reference_arrival_time s
unfolding arrival_time_from_kind reference_arrival_time schedule
arrival_time_from_kind-ne-reference s sc e z n = ground arith
