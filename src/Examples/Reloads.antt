-- ===== src/Examples/Reloads.antt =====
-- The referentials at concrete inputs.
use ara.Prelude.{
  ite, ◌-◌, ℕ, ◌+◌, ◌*◌, ◌<◌, ◌≤◌, String, ◌≡◌, ◌≢◌, ◌↔◌, some, [], ◌∷◌, arith, string_key, true,
  Bool, dec_lt,
}
use ara.Schedules.{Time, zero_time}
use ara.Updates.{bind}
use ara.Referentials.{
  Local, IsRead, Referential, Subscriber, wall, IsTimeOf, next_reload, next_reload-bounded,
  minute_length, broadcast_update_event, broadcast_update_event-save, save,
}
use ara.Referentials.Validation.{validate, IsFree, validate_iff}
use ara.UpdateEvents.{UpdateEvent, line_event}
use ara.Examples.Fleet.{loaded, tram}

-- a location in which the clocks go back by an hour on the fourth day, to the second hour: until
-- then the offset is greater by an hour, and 22 hours are added to the rest
abbrev hour_length : ℕ
hour_length = 60 * minute_length

abbrev change : ℕ
change = (4 * 24 + 2) * hour_length

date_of : Local → Time
date_of l =
    ite (dec_lt (wall l) change) (wall l + 22 * hour_length - hour_length)
      (wall l + 22 * hour_length)

date_of-IsTimeOf : (l : Local) → IsTimeOf (22 * hour_length) hour_length l (date_of l)
unfolding date_of
date_of-IsTimeOf l = elim (dec_lt (wall l) change) [
  | yes p ↦ (hour_length, ground arith, ground arith)
  | no n ↦ (0, ground arith, ground arith)
]

-- the day before the change, with the reload at half past four
abbrev eve : Local
eve = record { day = 3; hour = 4; minute = 30; beyond = 0 }

eve-IsRead : IsRead eve
eve-IsRead = record { hours = omega arith; minutes = omega arith; nanoseconds = omega arith }

next_reload-bounded_example :
    (date_of eve < next_reload date_of eve 4 30 + hour_length)
    × (next_reload date_of eve 4 30 ≤ date_of eve + 24 * 60 * minute_length + hour_length)
next_reload-bounded_example =
    next_reload-bounded date_of (22 * hour_length) hour_length (date_of eve) eve 4 30
      date_of-IsTimeOf (date_of-IsTimeOf eve) eve-IsRead (omega arith) (omega arith)

abbrev bypass : Subscriber
bypass model event = some model

abbrev network : Referential
network = record {
  id = "";
  organisation_id = "org";
  slug = "network";
  name = "Network";
  settings = [];
  tokens = [];
  next_reload_at = zero_time;
  update_subscribers = bypass ∷ [];
}

abbrev renaming : UpdateEvent
renaming = line_event (record { origin = "p1"; object_id = tram; name = "Tram" })

broadcast_update_event-save_example :
    broadcast_update_event (save [] bypass "r1" network).1 loaded renaming
    ≡ bind (broadcast_update_event network loaded renaming) (λ after. bypass after renaming)
broadcast_update_event-save_example =
    broadcast_update_event-save [] bypass "r1" network loaded renaming

abbrev lowercase : String → Bool
lowercase s = true

validate_iff_example :
    (validate lowercase (("r1", record network { id = "r1" }) ∷ []) "r2" "other" ≡ true) ↔ (
      (◌≢◌ {A = String} "other" "")
      × (lowercase "other" ≡ true)
      × IsFree lowercase "r2" "other" (("r1", record network { id = "r1" }) ∷ []))
validate_iff_example =
    validate_iff lowercase (("r1", record network { id = "r1" }) ∷ []) "r2" "other"
