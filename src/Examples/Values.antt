-- ===== src/Examples/Values.antt =====
-- Schedules, origins and references at concrete inputs.
use ara.Prelude.{◌≡◌, refl, true, false, [], ◌∷◌, string_dec, string_key, ℕ_discrete}
use ara.GoMap.{get, set, delete, IsDistinct}
use ara.GoMap.Loops.{every}
use ara.Schedules.{
  Schedule, Schedules, aimed, expected, actual, merge, include, set_departure_time,
  set_arrival_time, set_schedule, reference_time, zero_time, schedule_order,
}
use ara.Schedules
use ara.Origins.{Origins}
use ara.References.{Reference, References, put, siri_references, set_object_id, contains, add}
use ara.References
use ara.References.Complete.{IsComplete}
use ara.Examples.Samples.{quay}

abbrev planned : Schedules
planned = (aimed, record { kind = aimed; departure_time = 120; arrival_time = 100 }) ∷ []

abbrev known : Schedules
known = (actual, record { kind = actual; departure_time = 0; arrival_time = 105 }) ∷ planned

planned-IsDistinct : IsDistinct planned
unfolding get
planned-IsDistinct = (refl, tt)

included : include known planned ≡ true
unfolding include get string_dec every Schedules.compare_schedules ℕ_discrete
included = refl

abbrev before_outage : Origins
before_outage = ("partner1", true) ∷ ("partner2", true) ∷ []

abbrev after_outage : Origins
after_outage = ("partner1", false) ∷ []

origins-IsDistinct : IsDistinct before_outage
unfolding get string_dec
origins-IsDistinct = (refl, (refl, tt))

empty-IsComplete : IsComplete References.empty
unfolding get
empty-IsComplete key r e = cc

abbrev origin_reference : References
origin_reference = set_object_id References.empty "Origin" quay

origin-IsDistinct : IsDistinct origin_reference
unfolding set_object_id string_dec set delete get
origin-IsDistinct = (refl, tt)
