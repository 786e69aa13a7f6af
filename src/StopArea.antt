-- ===== src/StopArea.antt =====
-- model/stop_area.go, the StopArea: its state and its own operations.
-- Left out of the record: the back pointer to the model, which an operation that follows it takes
-- as an argument. A float64 is its bit pattern, since the code only stores and copies it.
use ara.Prelude.{◌≡◌, ℕ, String, refl, Bool, true, false, Option, none, some, List, [], string_key}
use ara.GoMap.{get}
use ara.ObjectId.{ObjectId, ObjectIds}
use ara.ObjectIdIndex.{ModelId}
use ara.Store.{Entity}
use ara.Schedules.{Time, zero_time}
use ara.Origins
use ara.Origins.{Origins}
use ara.Attributes
use ara.Attributes.{Attributes}
use ara.References
use ara.References.{References, LineId}

abbrev pub Float64 : Type 0
Float64 = ℕ

pub record StopArea : Type 0 where
  pub object_ids : ObjectIds
  pub id : ModelId
  pub parent_id : ModelId
  pub referent_id : ModelId
  pub next_collect_at : Time
  pub collected_at : Time
  pub collected_until : Time
  pub collected_always : Bool
  pub collect_general_messages : Bool
  pub monitored : Bool
  pub origins : Origins
  pub name : String
  pub line_ids : List LineId
  pub collect_children : Bool
  pub attributes : Attributes
  pub references : References
  pub longitude : Float64
  pub latitude : Float64

-- NewStopArea
abbrev pub new : StopArea
new = record {
  object_ids = [];
  id = "";
  parent_id = "";
  referent_id = "";
  next_collect_at = zero_time;
  collected_at = zero_time;
  collected_until = zero_time;
  collected_always = true;
  collect_general_messages = false;
  monitored = false;
  origins = Origins.empty;
  name = "";
  line_ids = [];
  collect_children = false;
  attributes = Attributes.empty;
  references = References.empty;
  longitude = 0;
  latitude = 0;
}

-- copy: new maps for the origins, attributes and references, the same map of identifiers
unfoldable pub copy : StopArea → StopArea
copy sa = record sa {
  origins = Origins.copy sa.origins;
  attributes = Attributes.copy sa.attributes;
  references = References.copy sa.references;
}

-- NextCollect
abbrev pub next_collect : StopArea → Time → StopArea
next_collect sa t = record sa { next_collect_at = t }

-- Updated
abbrev pub updated : StopArea → Time → StopArea
updated sa t = record sa { collected_at = t }

-- SetPartnerStatus
unfoldable pub set_partner_status : StopArea → String → Bool → StopArea
set_partner_status sa partner status = record sa {
  origins = Origins.set_partner_status sa.origins partner status;
  monitored = Origins.monitored (Origins.set_partner_status sa.origins partner status);
}

pub id-copy : (sa : StopArea) → (copy sa).id ≡ sa.id
unfolding copy
id-copy sa = refl

pub object_ids-copy : (sa : StopArea) → (copy sa).object_ids ≡ sa.object_ids
unfolding copy
object_ids-copy sa = refl

instance abbrev pub stop_area_entity : Entity StopArea
stop_area_entity = record {
  model_id = λ sa. sa.id;
  object_ids = λ sa. sa.object_ids;
  with_id = λ sa id. record sa { id = id };
  copy = copy;
  model_id-with_id = λ sa id. refl;
  object_ids-with_id = λ sa id. refl;
  model_id-copy = id-copy;
  object_ids-copy = object_ids-copy;
}

-- ReferentOrSelfObjectId; the argument is what Referent() finds
unfoldable pub referent_or_self_object_id : Option StopArea → StopArea → String → Option ObjectId
referent_or_self_object_id none sa kind = get sa.object_ids kind
referent_or_self_object_id (some referent) sa kind = elim (get referent.object_ids kind) [
  | none ↦ get sa.object_ids kind
  | some o ↦ some o
]
