-- ===== src/ObjectIdIndex/History.antt =====
-- Histories of calls of model/objectid_index.go against its contract.
use mathlib.Core.Path.{fun_ext}
use ara.Prelude.{◌≡◌, ◌≢◌, refl, ap, ◌∙◌, List, [], ◌∷◌, true, none, some, string_key, arith}
use ara.GoMap.{get}
use ara.ObjectId.{ObjectId, object_id_key}
use ara.ObjectIdIndex.{ModelId, ModelInstance, ObjectIdIndex, empty, index, find, remove}
use ara.ObjectIdIndex.Lookups.{carries}
use ara.ObjectIdIndex.Effect.{
  AreIdentifiers, recorded, IsWellFormed, index-IsWellFormed, find-remove, find-index,
}
use ara.ObjectIdIndex.Refinement.{
  Owners, take_over, give_up, IsOwned, IsExact, IsFair, index-IsExact, recorded-index,
  remove-IsExact, find-index_refines, find-remove_refines, index-IsOwned, remove-IsOwned,
  empty-IsExact,
}

-- The calls that a manager makes of its index.
pub data Call (M : Type 0) : Type 0 where
  indexes : M → Call M
  removes : ModelId → Call M

module _ {M : Type 0} ⦃inst : ModelInstance M⦄ where
  unfoldable pub call : ObjectIdIndex → Call M → ObjectIdIndex
  call ix (indexes m) = index ix m
  call ix (removes id) = remove ix id

  unfoldable pub run : ObjectIdIndex → List (Call M) → ObjectIdIndex
  run ix [] = ix
  run ix (c ∷ cs) = run (call ix c) cs

  abbrev pub contract : Owners → Call M → Owners
  contract owners (indexes m) = take_over owners (inst.model_id m) (inst.object_ids m)
  contract owners (removes id) = give_up owners id

  abbrev pub contracts : Owners → List (Call M) → Owners
  contracts owners [] = owners
  contracts owners (c ∷ cs) = contracts (contract owners c) cs

  abbrev IsFairCall : ObjectIdIndex → Call M → Type 0
  IsFairCall ix (indexes m) = IsFair ix m
  IsFairCall ix (removes id) = Unit

  -- Each model is indexed fairly at the moment of its call.
  abbrev pub AreFair : ObjectIdIndex → List (Call M) → Type 0
  AreFair ix [] = Unit
  AreFair ix (c ∷ cs) = IsFairCall ix c × AreFair (call ix c) cs

  call-IsExact :
      (ix : ObjectIdIndex) (c : Call M) → IsFairCall ix c → IsExact ix → IsExact (call ix c)
  unfolding call
  call-IsExact ix (indexes m) f x = index-IsExact ix m f x
  call-IsExact ix (removes id) f x = remove-IsExact ix id x

  call_refines :
      (ix : ObjectIdIndex) (c : Call M)
      → IsFairCall ix c
      → IsExact ix
      → find (call ix c) ≡ contract (find ix) c
  unfolding call
  call_refines ix (indexes m) f x = fun_ext (λ o. find-index_refines ix m o f.identifiers_lem x)
  call_refines ix (removes id) f x = fun_ext (λ o. find-remove_refines ix id o x)

  -- From an exact index, after any sequence of Index and Delete calls in which each model is
  -- indexed fairly at the moment of its call (its identifiers are as the code builds them, it
  -- keeps every kind that is recorded for it, and it claims no identifier that finds another
  -- model), Find answers what the contract says: a model takes its identifiers over and gives up
  -- its others, and a deleted model gives up all of its own.
  pub run_refines :
      (ix : ObjectIdIndex) (cs : List (Call M)) (o : ObjectId)
      → IsExact ix
      → AreFair ix cs
      → find (run ix cs) o ≡ contracts (find ix) cs o
  unfolding run
  run_refines ix [] o x f = refl
  run_refines ix (c ∷ cs) o x f =
      run_refines (call ix c) cs o (call-IsExact ix c f.0 x) f.1
      ∙ ap (λ owners. contracts owners cs o) (call_refines ix c f.0 x)

  -- Every model in the calls has identifiers as the code builds them.
  abbrev pub HaveIdentifiers : List (Call M) → Type 0
  HaveIdentifiers [] = Unit
  HaveIdentifiers (indexes m ∷ cs) = AreIdentifiers (inst.object_ids m) × HaveIdentifiers cs
  HaveIdentifiers (removes id ∷ cs) = HaveIdentifiers cs

  run-IsOwned :
      (ix : ObjectIdIndex) (cs : List (Call M))
      → IsOwned ix
      → HaveIdentifiers cs
      → IsOwned (run ix cs)
  unfolding run call
  run-IsOwned ix [] x h = x
  run-IsOwned ix (indexes m ∷ cs) x h = run-IsOwned (index ix m) cs (index-IsOwned ix m h.0 x) h.1
  run-IsOwned ix (removes id ∷ cs) x h = run-IsOwned (remove ix id) cs (remove-IsOwned ix id x) h

  -- After any sequence of Index and Delete calls on a new index, fair or not, in which the models
  -- have identifiers as the code builds them, a model that Find names has the identifier recorded.
  pub find-recorded :
      (cs : List (Call M)) (o : ObjectId) (id : ModelId)
      → HaveIdentifiers cs
      → find (run empty cs) o ≡ some id
      → recorded (run empty cs) id o ≡ true
  find-recorded cs o id h e = (run-IsOwned empty cs empty-IsExact.is_owned h).owned o id e

  -- From a well-formed index, when a model is indexed with an identifier and again without that
  -- kind, and a second model with another id takes the identifier, Find gives the second model
  -- until the Subscriptions.first is deleted, and after that nothing; the identifiers of all three
  -- are as the code builds them.
  pub find_lost :
      (ix : ObjectIdIndex) (first stripped second : M) (o : ObjectId)
      → IsWellFormed ix
      → AreIdentifiers (inst.object_ids first)
      → AreIdentifiers (inst.object_ids stripped)
      → AreIdentifiers (inst.object_ids second)
      → inst.model_id stripped ≡ inst.model_id first
      → inst.model_id second ≢ inst.model_id first
      → carries (inst.object_ids first) o ≡ true
      → get (inst.object_ids stripped) o.kind ≡ none
      → carries (inst.object_ids second) o ≡ true
      → (find (run ix (indexes first ∷ indexes stripped ∷ indexes second ∷ [])) o
          ≡ some (inst.model_id second))
        × (find
              (run ix (
                indexes first
                ∷ indexes stripped
                ∷ indexes second
                ∷ removes (inst.model_id first)
                ∷ []))
              o
            ≡ none)
  unfolding run call
  find_lost ix first stripped second o w a b c same other had lost took =
      let w1 = index-IsWellFormed ix first a w in
      let w2 = index-IsWellFormed (index ix first) stripped b w1 in
      let w3 = index-IsWellFormed (index (index ix first) stripped) second c w2 in
      let r1 = recorded-index ix first (inst.model_id first) o a in
      let r2 = recorded-index (index ix first) stripped (inst.model_id first) o b in
      let r3 = recorded-index (index (index ix first) stripped) second (inst.model_id first) o c in
      let f3 = find-index (index (index ix first) stripped) second o w2 c in
      let f4 =
        find-remove (index (index (index ix first) stripped) second) (inst.model_id first) o w3 in
      (ground arith, ground arith)
