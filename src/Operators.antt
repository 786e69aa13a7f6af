-- ===== src/Operators.antt =====
-- model/operator.go: the Operator; its manager is a map of operators, as Unindexed has it.
use ara.Prelude.{String, refl, []}
use ara.GoMap.{Map}
use ara.ObjectId.{ObjectIds}
use ara.ObjectIdIndex.{ModelId}
use ara.Store.{Entity}

pub record Operator : Type 0 where
  pub object_ids : ObjectIds
  pub id : ModelId
  pub name : String

-- NewOperator
abbrev pub new : Operator
new = record { object_ids = []; id = ""; name = "" }

-- an operator is handed out by value, with the same map of identifiers
instance abbrev pub operator_entity : Entity Operator
operator_entity = record {
  model_id = λ operator. operator.id;
  object_ids = λ operator. operator.object_ids;
  with_id = λ operator id. record operator { id = id };
  copy = λ operator. operator;
  model_id-with_id = λ operator id. refl;
  object_ids-with_id = λ operator id. refl;
  model_id-copy = λ operator. refl;
  object_ids-copy = λ operator. refl;
}

abbrev pub Operators : Type 0
Operators = Map ModelId Operator

-- NewMemoryOperators
abbrev pub empty : Operators
empty = []
