-- ===== src/Schedules.antt =====
-- model/stop_visit_schedule.go: the aimed, expected and actual times of a stop visit, by type; and
-- the reference times that model/stop_visit.go reads off them.
-- A time.Time is the number of nanoseconds since the zero time. The entries are values: Go's
-- pointers in the map are never shared between two StopVisitSchedules, since Copy and Merge
-- allocate new ones.
pub mod Merging
pub mod Setting
pub mod Reading
use ara.Prelude.{
  ℕ, String, Bool, true, false, not, ◌&&◌, Option, none, some, List, [], ◌∷◌, ite, if◌then◌else◌,
  string_dec, string_key, ℕ_discrete,
}
use ara.GoMap.{Map, get, set}
use ara.GoMap.Loops.{fill, every}

abbrev pub Time : Type 0
Time = ℕ

-- time.Time{}
abbrev pub zero_time : Time
zero_time = 0

abbrev pub is_zero : Time → Bool
is_zero t = ite (ℕ_discrete t 0) true false

-- t.Equal(u)
abbrev pub same_time : Time → Time → Bool
same_time t u = ite (ℕ_discrete t u) true false

-- A time.Time as `==` compares it: the instant, the monotonic clock reading (0 for none), and the
-- address of the Location (0 for nil), which is a new one for each text that is parsed with an
-- offset other than that of UTC or of the local zone.
pub record Stamp : Type 0 where
  pub instant : Time
  pub reading : ℕ
  pub location : ℕ

abbrev pub zero_stamp : Stamp
zero_stamp = record { instant = zero_time; reading = 0; location = 0 }

-- t == u
abbrev pub equals : Stamp → Stamp → Bool
equals t u =
    ite (ℕ_discrete t.instant u.instant) true false
    && ite (ℕ_discrete t.reading u.reading) true false
    && ite (ℕ_discrete t.location u.location) true false

abbrev pub ScheduleType : Type 0
ScheduleType = String

abbrev pub aimed : ScheduleType
aimed = "aimed"

abbrev pub expected : ScheduleType
expected = "expected"

abbrev pub actual : ScheduleType
actual = "actual"

pub record Schedule : Type 0 where
  pub kind : ScheduleType
  pub departure_time : Time
  pub arrival_time : Time

-- &StopVisitSchedule{}
abbrev pub no_schedule : Schedule
no_schedule = record { kind = ""; departure_time = zero_time; arrival_time = zero_time }

abbrev pub Schedules : Type 0
Schedules = Map ScheduleType Schedule

-- NewStopVisitSchedules
abbrev pub empty : Schedules
empty = []

-- the entry that Copy and Merge allocate
abbrev pub duplicate : ScheduleType → Schedule → Schedule
duplicate key value = record {
  kind = value.kind;
  departure_time = value.departure_time;
  arrival_time = value.arrival_time;
}

unfoldable pub copy : Schedules → Schedules
copy schedules = fill duplicate empty schedules

unfoldable pub merge : Schedules → Schedules → Schedules
merge schedules new_schedules = fill duplicate schedules new_schedules

-- compareSchedules; `none` is a nil pointer
unfoldable pub compare_schedules : Option Schedule → Option Schedule → Bool
compare_schedules none sc2 = false
compare_schedules (some sc1) none = false
compare_schedules (some sc1) (some sc2) =
    ite (string_dec sc1.kind sc2.kind)
      (same_time sc1.arrival_time sc2.arrival_time
        && same_time sc1.departure_time sc2.departure_time)
      false

unfoldable pub include : Schedules → Schedules → Bool
include schedules scs = every (λ k v. compare_schedules (some v) (get schedules k)) scs

-- the body of the loop of Eq, on the two entries of a type
unfoldable pub same_entry : Option Schedule → Option Schedule → Bool
unfolding compare_schedules
same_entry none none = true
same_entry a b = compare_schedules a b

-- Eq, over the three types of stopVisitScheduleTypes
unfoldable pub eq : Schedules → Schedules → Bool
unfolding same_entry
eq schedules scs =
    same_entry (get schedules aimed) (get scs aimed)
    && same_entry (get schedules expected) (get scs expected)
    && same_entry (get schedules actual) (get scs actual)

-- the entry that SetDepartureTime and SetArrivalTime change: the one there, or a new one
abbrev pub entry_for : ScheduleType → Option Schedule → Schedule
entry_for kind none = record no_schedule { kind = kind }
entry_for kind (some schedule) = schedule

unfoldable pub set_departure_time : Schedules → ScheduleType → Time → Schedules
set_departure_time schedules kind t =
    set schedules kind (record (entry_for kind (get schedules kind)) { departure_time = t })

unfoldable pub set_arrival_time : Schedules → ScheduleType → Time → Schedules
set_arrival_time schedules kind t =
    set schedules kind (record (entry_for kind (get schedules kind)) { arrival_time = t })

unfoldable pub set_schedule : Schedules → ScheduleType → Time → Time → Schedules
set_schedule schedules kind departure arrival =
    set schedules kind (record { kind = kind; departure_time = departure; arrival_time = arrival })

abbrev pub or_no_schedule : Option Schedule → Schedule
or_no_schedule none = no_schedule
or_no_schedule (some schedule) = schedule

unfoldable pub schedule : Schedules → ScheduleType → Schedule
schedule schedules kind = or_no_schedule (get schedules kind)

abbrev pub default_kinds : List ScheduleType
default_kinds = actual ∷ expected ∷ aimed ∷ []

-- a nil slice is `none`
abbrev pub or_default : Option (List ScheduleType) → List ScheduleType
or_default none = default_kinds
or_default (some kinds) = kinds

-- the loops of ArrivalTimeFromKind and DepartureTimeFromKind, over the time that they read
unfoldable pub time_from : (Schedule → Time) → Schedules → List ScheduleType → Time
time_from time schedules [] = zero_time
time_from time schedules (kind ∷ kinds) =
    let rest = time_from time schedules kinds in
    elim (get schedules kind) [ none ↦ rest | some value ↦ time value ]

unfoldable pub arrival_time_from_kind : Schedules → Option (List ScheduleType) → Time
unfolding time_from
arrival_time_from_kind schedules kinds =
    time_from (λ s. s.arrival_time) schedules (or_default kinds)

unfoldable pub departure_time_from_kind : Schedules → Option (List ScheduleType) → Time
unfolding time_from
departure_time_from_kind schedules kinds =
    time_from (λ s. s.departure_time) schedules (or_default kinds)

-- SCHEDULE_ORDER_MAP of model/stop_visit.go
abbrev pub schedule_order : List ScheduleType
schedule_order = actual ∷ expected ∷ aimed ∷ []

-- the loops of ReferenceArrivalTime and ReferenceDepartureTime
unfoldable pub first_set : (Schedule → Time) → Schedules → List ScheduleType → Time
unfolding schedule
first_set time schedules [] = zero_time
first_set time schedules (kind ∷ kinds) =
    let rest = first_set time schedules kinds in
    if not (is_zero (time (schedule schedules kind))) then time (schedule schedules kind) else rest

unfoldable pub reference_arrival_time : Schedules → Time
unfolding first_set
reference_arrival_time schedules = first_set (λ s. s.arrival_time) schedules schedule_order

unfoldable pub reference_departure_time : Schedules → Time
unfolding first_set
reference_departure_time schedules = first_set (λ s. s.departure_time) schedules schedule_order

unfoldable pub reference_time : Schedules → Time
unfolding reference_arrival_time reference_departure_time
reference_time schedules =
    if not (is_zero (reference_arrival_time schedules))
    then reference_arrival_time schedules
    else reference_departure_time schedules
