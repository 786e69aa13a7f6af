-- ===== src/ModelGuardian.antt =====
-- core/model_guardian.go: the visits of the guardian to a model, each ten seconds.
-- It opens a transaction for each stop area, line or stop visit, but Save of one that was found goes to
-- the model below the transactions, so that their commits change nothing. The numbers that
-- rand.Intn(20) draws are an argument, by the id; so are the clock and what is requested of the
-- collect manager is a list. The goroutine and the recovery of a panic are left out.

pub mod Simulator
pub mod Bounds
use ara.Prelude.{
  ℕ, ◌+◌, ◌*◌, String, Bool, true, false, not, ◌&&◌, ◌||◌, Option, none, some, List, [], ◌∷◌, ◌++◌,
  ite, if◌then◌else◌, string_dec, dec_lt,
}
use ara.ObjectIdIndex.{ModelId}
use ara.References.{is_blank}
use ara.Schedules
use ara.Schedules.{
  Time, expected, aimed, actual, arrival_time_from_kind, departure_time_from_kind, set_arrival_time,
  set_departure_time,
}
use ara.Store
use ara.Line
use ara.Line.{Line, line_entity}
use ara.StopArea
use ara.StopArea.{StopArea, stop_area_entity}
use ara.StopAreas
use ara.StopVisit.{StopVisit, stop_visit_entity, is_after, arrival_cancelled}
use ara.StopVisits
use ara.Model.{MemoryModel}
use ara.Updates.{bind}

abbrev pub second : ℕ
second = 1000000000

-- what the collect manager is asked for
pub data Asked : Type 0 where
  ask_stop_area ask_stop_area_situations ask_line_situations : ModelId → Asked
  ask_all_situations : Asked

abbrev pub blocks : Option StopArea → Bool
blocks none = false
blocks (some parent) = not parent.collect_children

-- the tests of the loop of refreshStopAreas
unfoldable pub is_due : MemoryModel → Time → StopArea → Bool
is_due model now sa =
    not (not (is_blank sa.parent_id) && blocks (StopAreas.find model.stop_areas sa.parent_id))
    && (sa.collected_always || is_after sa.collected_until now)
    && ite (dec_lt sa.next_collect_at now) true false

-- `now.Add(rand.Intn(20)+40 seconds)`
abbrev pub next_time : Time → ℕ → Time
next_time now drawn = now + (drawn + 40) * second

unfoldable pub put_off : Time → ℕ → MemoryModel → Option StopArea → Option MemoryModel
put_off now drawn model none = none
put_off now drawn model (some sa) = some (record model {
  stop_areas =
      (StopAreas.save model.stop_areas "" (StopArea.next_collect sa (next_time now drawn))).0;
})

abbrev pub requests_for : StopArea → List Asked
requests_for sa =
    ask_stop_area sa.id
    ∷ (if sa.collect_general_messages then ask_stop_area_situations sa.id ∷ [] else [])

-- the body of the loop; none is the panic of Save on a stop area that is not there any more
unfoldable pub visit_stop_area : Time → ℕ → MemoryModel → StopArea → Option MemoryModel
unfolding is_due put_off
visit_stop_area now drawn model sa =
    if is_due model now sa
    then put_off now drawn model (StopAreas.find model.stop_areas sa.id)
    else some model

unfoldable pub visit_stop_areas :
    Time
    → (ModelId → ℕ)
    → List StopArea
    → MemoryModel
    → List Asked
    → Option (MemoryModel × List Asked)
unfolding visit_stop_area
visit_stop_areas now drawn [] model requests = some (model, requests)
visit_stop_areas now drawn (sa ∷ rest) model requests =
    bind (visit_stop_area now (drawn sa.id) model sa) (λ after.
      visit_stop_areas now drawn rest after
        (if is_due model now sa then requests ++ requests_for sa else requests))

-- refreshStopAreas
unfoldable pub refresh_stop_areas :
    Time → (ModelId → ℕ) → MemoryModel → Option (MemoryModel × List Asked)
unfolding visit_stop_areas
refresh_stop_areas now drawn model =
    visit_stop_areas now drawn (Store.find_all model.stop_areas.store) model []

-- the tests of the loop of refreshLines
unfoldable pub is_line_due : Time → Line → Bool
is_line_due now line =
    line.collect_general_messages && ite (dec_lt line.next_collect_at now) true false

unfoldable pub put_line_off : Time → ℕ → MemoryModel → Option Line → Option MemoryModel
put_line_off now drawn model none = none
put_line_off now drawn model (some line) = some (record model {
  lines = (Store.save model.lines "" (Line.next_collect line (next_time now drawn))).0;
})

unfoldable pub visit_line : Time → ℕ → MemoryModel → Line → Option MemoryModel
unfolding is_line_due put_line_off
visit_line now drawn model line =
    if is_line_due now line
    then put_line_off now drawn model (Store.find model.lines line.id)
    else some model

unfoldable pub visit_lines :
    Time → (ModelId → ℕ) → List Line → MemoryModel → List Asked → Option (MemoryModel × List Asked)
unfolding visit_line
visit_lines now drawn [] model requests = some (model, requests)
visit_lines now drawn (line ∷ rest) model requests =
    bind (visit_line now (drawn line.id) model line) (λ after.
      visit_lines now drawn rest after
        (if is_line_due now line then requests ++ ask_line_situations line.id ∷ [] else requests))

-- refreshLines
unfoldable pub refresh_lines :
    Time → (ModelId → ℕ) → MemoryModel → Option (MemoryModel × List Asked)
unfolding visit_lines
refresh_lines now drawn model = visit_lines now drawn (Store.find_all model.lines) model []

-- requestSituations, on the timer gmTimer
unfoldable pub request_situations : Time → Time → Time × List Asked
request_situations now timer =
    ite (dec_lt now (timer + 60 * second)) (timer, [])
      (timer + 60 * second, ask_all_situations ∷ [])

-- checkReloadModel: is the model to be reloaded?
abbrev pub is_reload_due : Time → Time → Bool
is_reload_due now next_reload_at = is_after now next_reload_at
