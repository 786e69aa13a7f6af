-- ===== src/StopVisit.antt =====
-- model/stop_visit.go, the StopVisit, and model/stop_visit_selector.go.
-- Left out of the record: the back pointer to the model. An int that the code only stores and copies
-- is its bit pattern.
use ara.Prelude.{
  ℕ, String, ◌≡◌, refl, Bool, true, false, not, ◌||◌, List, [], ◌∷◌, ite, if◌then◌else◌, dec_lt,
  string_dec, arith,
}
use ara.ObjectId.{ObjectIds}
use ara.ObjectIdIndex.{ModelId}
use ara.Store.{Entity}
use ara.Schedules
use ara.Schedules.{Schedules, Time, zero_time, is_zero}
use ara.Attributes
use ara.Attributes.{Attributes}
use ara.References
use ara.References.{References}

pub record StopVisit : Type 0 where
  pub object_ids : ObjectIds
  pub origin : String
  pub id : ModelId
  pub collected : Bool
  pub collected_at : Time
  pub stop_area_id : ModelId
  pub vehicle_journey_id : ModelId
  pub attributes : Attributes
  pub references : References
  pub arrival_status : String
  pub departure_status : String
  pub data_frame_ref : String
  pub recorded_at : Time
  pub schedules : Schedules
  pub vehicle_at_stop : Bool
  pub passage_order : ℕ

-- NewStopVisit
abbrev pub new : StopVisit
new = record {
  object_ids = [];
  origin = "";
  id = "";
  collected = false;
  collected_at = zero_time;
  stop_area_id = "";
  vehicle_journey_id = "";
  attributes = Attributes.empty;
  references = References.empty;
  arrival_status = "";
  departure_status = "";
  data_frame_ref = "";
  recorded_at = zero_time;
  schedules = Schedules.empty;
  vehicle_at_stop = false;
  passage_order = 0;
}

-- copy: new maps for the attributes, references and schedules, the same map of identifiers
unfoldable pub copy : StopVisit → StopVisit
copy sv = record sv {
  attributes = Attributes.copy sv.attributes;
  references = References.copy sv.references;
  schedules = Schedules.copy sv.schedules;
}

-- the statuses of model/stop_visit_update_event.go that the code sets or tests
abbrev pub arrival_cancelled : String
arrival_cancelled = "cancelled"

abbrev pub departure_departed : String
departure_departed = "departed"

-- NotCollected
abbrev pub not_collected : StopVisit → StopVisit
not_collected sv = record sv {
  collected = false;
  arrival_status = arrival_cancelled;
  departure_status = departure_departed;
}

-- Collected
abbrev pub collect_at : StopVisit → Time → StopVisit
collect_at sv t = record sv { collected = true; collected_at = t }

-- ReferenceTime
unfoldable pub reference_time : StopVisit → Time
reference_time sv = Schedules.reference_time sv.schedules

pub id-copy : (sv : StopVisit) → (copy sv).id ≡ sv.id
unfolding copy
id-copy sv = refl

pub object_ids-copy : (sv : StopVisit) → (copy sv).object_ids ≡ sv.object_ids
unfolding copy
object_ids-copy sv = refl

instance abbrev pub stop_visit_entity : Entity StopVisit
stop_visit_entity = record {
  model_id = λ sv. sv.id;
  object_ids = λ sv. sv.object_ids;
  with_id = λ sv id. record sv { id = id };
  copy = copy;
  model_id-with_id = λ sv id. refl;
  object_ids-with_id = λ sv id. refl;
  model_id-copy = id-copy;
  object_ids-copy = object_ids-copy;
}

-- t.After(u), t.Before(u)
abbrev pub is_after : Time → Time → Bool
is_after t u = ite (dec_lt u t) true false

abbrev pub is_before : Time → Time → Bool
is_before t u = ite (dec_lt t u) true false

abbrev pub Selector : Type 0
Selector = StopVisit → Bool

-- StopVisitSelectorByTime
unfoldable pub select_by_time : Time → Time → Selector
select_by_time start_time end_time sv =
    if is_zero (reference_time sv)
      || is_before (reference_time sv) start_time
      || is_after (reference_time sv) end_time
    then false
    else true

-- StopVisitSelectorAfterTime
unfoldable pub select_after_time : Time → Selector
select_after_time start_time sv =
    if is_zero (reference_time sv) || is_before (reference_time sv) start_time then false else true

-- StopVisitSelectorBeforeTime
unfoldable pub select_before_time : Time → Selector
select_before_time end_time sv =
    if is_zero (reference_time sv) || is_after (reference_time sv) end_time then false else true

-- StopVisitSelectByStopAreaId
unfoldable pub select_by_stop_area_id : ModelId → Selector
select_by_stop_area_id stop_area_id sv = ite (string_dec sv.stop_area_id stop_area_id) true false

-- CompositeStopVisitSelector
unfoldable pub composite : List Selector → Selector
composite [] sv = true
composite (selector ∷ selectors) sv =
    let rest = composite selectors sv in if not (selector sv) then false else rest

-- The selector by a span of time takes exactly the stop visits that the composite of the selectors
-- after its start and before its end takes.
pub select_by_time-composite :
    (start_time end_time : Time) (sv : StopVisit)
    → select_by_time start_time end_time sv
      ≡ composite (select_after_time start_time ∷ select_before_time end_time ∷ []) sv
unfolding select_by_time select_after_time select_before_time composite
select_by_time-composite start_time end_time sv = ground arith
