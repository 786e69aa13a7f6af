-- ===== src/Examples/Samples.antt =====
-- Stop areas and their identifiers, for the tests.
use ara.Prelude.{refl, [], ◌∷◌, arith, string_key}
use ara.GoMap.{get}
use ara.ObjectId.{ObjectId, new, object_id_key}
use ara.ObjectIdIndex.{ModelId}
use ara.ObjectIdIndex.Effect.{AreIdentifiers}
use ara.StopArea.{StopArea}
use ara.StopArea

abbrev pub quay : ObjectId
quay = new "internal" "quay-1"

abbrev pub platform : ObjectId
platform = new "internal" "platform-7"

-- a stop area with an id and an identifier
abbrev pub stop : ModelId → ObjectId → StopArea
stop id o = record StopArea.new { id = id; object_ids = (o.kind, o) ∷ [] }

-- the same with no identifier at all
abbrev pub bare : ModelId → StopArea
bare id = record StopArea.new { id = id }

pub single-AreIdentifiers : (o : ObjectId) → AreIdentifiers ((o.kind, o) ∷ [])
unfolding get
single-AreIdentifiers o = record { distinct = (refl, tt); keyed = λ k p e. ground arith }
