-- ===== src/Situations.antt =====
-- model/situation.go: the Situation and the manager MemorySituations. The manager is a map of
-- situations, as Unindexed has it, whose Save also tells the broadcaster.

use ara.Prelude.{
  ℕ, String, refl, Bool, Option, none, some, List, [], ◌∷◌, if◌then◌else◌, string_dec, ite,
}
use ara.GoMap.{Map}
use ara.ObjectId.{ObjectId, ObjectIds}
use ara.ObjectIdIndex.{ModelId}
use ara.Store
use ara.Store.{Entity, Found}
use ara.Unindexed
use ara.References.{Reference, References}
use ara.Schedules.{Time, zero_time, Stamp, zero_stamp}
use ara.Subscription.{text}

-- An int is its bit pattern: the code only stores and copies it.
pub record Message : Type 0 where
  pub content : String
  pub kind : String
  pub number_of_lines : ℕ
  pub number_of_char_per_line : ℕ

pub record Situation : Type 0 where
  pub object_ids : ObjectIds
  pub origin : String
  pub id : ModelId
  pub references : List Reference
  pub line_sections : List References
  pub messages : List Message
  pub recorded_at : Stamp
  pub valid_until : Time
  pub format : String
  pub channel : String
  pub producer_ref : String
  pub version : ℕ

-- NewSituation
abbrev pub new : Situation
new = record {
  object_ids = [];
  origin = "";
  id = "";
  references = [];
  line_sections = [];
  messages = [];
  recorded_at = zero_stamp;
  valid_until = zero_time;
  format = "";
  channel = "";
  producer_ref = "";
  version = 0;
}

-- FindReferenceByObjectId; a reference with a nil ObjectId is the panic
pub data FoundReference : Type 0 where
  found_reference : Reference → FoundReference
  no_reference nil_object_id : FoundReference

unfoldable pub reference_here :
    Reference → Option ObjectId → ObjectId → FoundReference → FoundReference
reference_here ref none obj later = nil_object_id
reference_here ref (some o) obj later =
    ite (string_dec (text o) (text obj)) (found_reference ref) later

unfoldable pub find_reference_by_object_id : List Reference → ObjectId → FoundReference
unfolding reference_here
find_reference_by_object_id [] obj = no_reference
find_reference_by_object_id (ref ∷ refs) obj =
    reference_here ref ref.object_id obj (find_reference_by_object_id refs obj)

-- a situation is handed out by value, with the same map of identifiers
instance abbrev pub situation_entity : Entity Situation
situation_entity = record {
  model_id = λ situation. situation.id;
  object_ids = λ situation. situation.object_ids;
  with_id = λ situation id. record situation { id = id };
  copy = λ situation. situation;
  model_id-with_id = λ situation id. refl;
  object_ids-with_id = λ situation id. refl;
  model_id-copy = λ situation. refl;
  object_ids-copy = λ situation. refl;
}

-- The ids that the callback was given, newest first; `broadcasts` is whether there is a callback.
pub record Situations : Type 0 where
  pub by_identifier : Map ModelId Situation
  pub broadcasts : Bool
  pub events : List ModelId

-- NewMemorySituations, with the callback that the model sets
abbrev pub empty : Bool → Situations
empty broadcasts = record { by_identifier = []; broadcasts = broadcasts; events = [] }

-- Find
unfoldable pub find : Situations → ModelId → Option Situation
find manager id = Unindexed.find manager.by_identifier id

-- FindByObjectId
unfoldable pub find_by_object_id : Situations → ObjectId → Found Situation
find_by_object_id manager o = Unindexed.find_by_object_id manager.by_identifier o

-- Save, once the situation has an id
unfoldable pub keep : Situations → Situation → Situations
keep manager situation = record manager {
  by_identifier = Unindexed.keep manager.by_identifier situation;
  events = if manager.broadcasts then situation.id ∷ manager.events else manager.events;
}

-- Save
unfoldable pub save : Situations → ModelId → Situation → Situations × Situation
unfolding keep
save manager uuid situation =
    (keep manager (Store.identified uuid situation), Store.identified uuid situation)

-- Delete
unfoldable pub remove : Situations → Situation → Situations
remove manager situation = record manager {
  by_identifier = Unindexed.remove manager.by_identifier situation;
}
