-- ===== src/Examples/Broadcasts.antt =====
-- The changes that are sent to subscribers, at concrete stop visits.
use ara.Prelude.{
  ◌*◌, ◌<◌, String, ◌≡◌, ◌≢◌, refl, Option, some, [], ◌∷◌, arith, string_key, string_dec, differ,
  ℕ_discrete, dec_lt, dec_le,
}
use ara.GoMap.{get, IsDistinct}
use ara.StopVisit.{StopVisit}
use ara.StopVisit
use ara.Subscription.{Subscription, subscription_option}
use ara.Subscriptions.{blank}
use ara.LastStates.{Groups, half, threshold, duration_of, second, option_duration}

abbrev five_minutes : Groups
five_minutes = record {
  years = "";
  months = "";
  days = "";
  hours = "";
  minutes = "5";
  seconds = "";
  rest = "";
}

duration_test : duration_of (some five_minutes) ≡ 300 * second
unfolding duration_of dec_lt dec_le ℕ_discrete
duration_test = refl

-- a reader of options that knows one text
abbrev submatch : String → Option Groups
submatch text = some five_minutes

abbrev visit : StopVisit
visit = record StopVisit.new {
  id = "visit1";
  schedules = ("actual", record { kind = "actual"; departure_time = 40; arrival_time = 30 }) ∷ [];
}

abbrev subscription : Subscription String
subscription = record (blank "EstimatedTimetableBroadcast") {
  subscription_options = ("ChangeBeforeUpdates", "PT5M") ∷ [];
}

visit-IsDistinct : IsDistinct visit.schedules
unfolding get
visit-IsDistinct = (refl, tt)

option_given : subscription_option subscription "ChangeBeforeUpdates" ≢ ""
unfolding subscription_option get string_dec
option_given = differ "PT5M" "" refl

small : threshold submatch (subscription_option subscription "ChangeBeforeUpdates") < half
unfolding threshold option_duration duration_of dec_lt dec_le ℕ_discrete
small = omega arith
