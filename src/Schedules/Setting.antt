-- ===== src/Schedules/Setting.antt =====
-- The setters of model/stop_visit_schedule.go.
use ara.Prelude.{◌≡◌, refl, Option, none, some, ite, arith, string_dec, string_key}
use ara.GoMap.{get, set, get-set}
use ara.Schedules.{
  Schedule, Schedules, ScheduleType, Time, entry_for, set_departure_time, set_arrival_time,
  set_schedule, schedule,
}

-- Every entry stands under its own type.
abbrev pub IsTyped : Schedules → Type 0
IsTyped s = (kind : ScheduleType) (sc : Schedule) → get s kind ≡ some sc → sc.kind ≡ kind

-- Setting one time leaves the other time of that type, and all other types, as they were.
pub schedule-set_departure_time :
    (s : Schedules) (kind : ScheduleType) (t : Time) (j : ScheduleType)
    → ((schedule (set_departure_time s kind t) j).arrival_time ≡ (schedule s j).arrival_time)
      × ((schedule (set_departure_time s kind t) j).departure_time
          ≡ ite (string_dec kind j) t (schedule s j).departure_time)
unfolding schedule set_departure_time
schedule-set_departure_time s kind t j =
    let e = get-set s kind (record (entry_for kind (get s kind)) { departure_time = t }) j in
    (ground arith, ground arith)

pub schedule-set_arrival_time :
    (s : Schedules) (kind : ScheduleType) (t : Time) (j : ScheduleType)
    → ((schedule (set_arrival_time s kind t) j).departure_time ≡ (schedule s j).departure_time)
      × ((schedule (set_arrival_time s kind t) j).arrival_time
          ≡ ite (string_dec kind j) t (schedule s j).arrival_time)
unfolding schedule set_arrival_time
schedule-set_arrival_time s kind t j =
    let e = get-set s kind (record (entry_for kind (get s kind)) { arrival_time = t }) j in
    (ground arith, ground arith)

kind-entry_for :
    (kind : ScheduleType) (found : Option Schedule)
    → ((sc : Schedule) → found ≡ some sc → sc.kind ≡ kind)
    → (entry_for kind found).kind ≡ kind
kind-entry_for kind none h = refl
kind-entry_for kind (some sc) h = h sc refl

-- Where every entry stands under its own type, SetDepartureTime and then SetArrivalTime of a type
-- leave at every type what SetSchedule with both times would.
pub set_both :
    (s : Schedules) (kind : ScheduleType) (departure arrival : Time) (j : ScheduleType)
    → IsTyped s
    → get (set_arrival_time (set_departure_time s kind departure) kind arrival) j
      ≡ get (set_schedule s kind departure arrival) j
unfolding set_arrival_time set_departure_time set_schedule
set_both s kind departure arrival j h =
    let first = record (entry_for kind (get s kind)) { departure_time = departure } in
    ground (
      arith,
      kind-entry_for kind (get s kind) (h kind),
      get-set s kind first kind,
      get-set s kind first j,
      get-set (set s kind first) kind (record first { arrival_time = arrival }) j,
      get-set s kind (record { kind = kind; departure_time = departure; arrival_time = arrival }) j,
    )

pub set_departure_time-IsTyped :
    (s : Schedules) (kind : ScheduleType) (t : Time)
    → IsTyped s
    → IsTyped (set_departure_time s kind t)
unfolding set_departure_time
set_departure_time-IsTyped s kind t h j sc e = ground (
  arith,
  kind-entry_for kind (get s kind) (h kind),
  get-set s kind (record (entry_for kind (get s kind)) { departure_time = t }) j,
  h j sc,
)

pub set_arrival_time-IsTyped :
    (s : Schedules) (kind : ScheduleType) (t : Time)
    → IsTyped s
    → IsTyped (set_arrival_time s kind t)
unfolding set_arrival_time
set_arrival_time-IsTyped s kind t h j sc e = ground (
  arith,
  kind-entry_for kind (get s kind) (h kind),
  get-set s kind (record (entry_for kind (get s kind)) { arrival_time = t }) j,
  h j sc,
)
