-- ===== src/Line.antt =====
-- model/lines.go, the Line: its state and its own operations. The manager of the lines is a Store of
-- lines and nothing more.
use ara.Prelude.{String, ◌≡◌, refl, Bool, false, []}
use ara.ObjectId.{ObjectIds}
use ara.ObjectIdIndex.{ModelId}
use ara.Store.{Entity}
use ara.Schedules.{Time, zero_time}
use ara.Attributes
use ara.Attributes.{Attributes}
use ara.References
use ara.References.{References}

pub record Line : Type 0 where
  pub object_ids : ObjectIds
  pub origin : String
  pub id : ModelId
  pub next_collect_at : Time
  pub collected_at : Time
  pub name : String
  pub collect_general_messages : Bool
  pub attributes : Attributes
  pub references : References

-- NewLine
abbrev pub new : Line
new = record {
  object_ids = [];
  origin = "";
  id = "";
  next_collect_at = zero_time;
  collected_at = zero_time;
  name = "";
  collect_general_messages = false;
  attributes = Attributes.empty;
  references = References.empty;
}

-- copy: new maps for the attributes and references, the same map of identifiers
unfoldable pub copy : Line → Line
copy line = record line {
  attributes = Attributes.copy line.attributes;
  references = References.copy line.references;
}

-- NextCollect
abbrev pub next_collect : Line → Time → Line
next_collect line t = record line { next_collect_at = t }

-- Updated
abbrev pub updated : Line → Time → Line
updated line t = record line { collected_at = t }

-- SetOrigin
abbrev pub set_origin : Line → String → Line
set_origin line origin = record line { origin = origin }

pub id-copy : (line : Line) → (copy line).id ≡ line.id
unfolding copy
id-copy line = refl

pub object_ids-copy : (line : Line) → (copy line).object_ids ≡ line.object_ids
unfolding copy
object_ids-copy line = refl

instance abbrev pub line_entity : Entity Line
line_entity = record {
  model_id = λ line. line.id;
  object_ids = λ line. line.object_ids;
  with_id = λ line id. record line { id = id };
  copy = copy;
  model_id-with_id = λ line id. refl;
  object_ids-with_id = λ line id. refl;
  model_id-copy = id-copy;
  object_ids-copy = object_ids-copy;
}
