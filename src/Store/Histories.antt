-- ===== src/Store/Histories.antt =====
-- The searches of a manager after any calls, from NewMemoryStopAreas and the like on.
use ara.Prelude.{arith, ◌≡◌, Option, none, some, Option-cases, inl, inr, string_key, List, [], ◌∷◌}
use ara.ObjectId.{ObjectId}
use ara.ObjectIdIndex.{ModelId}
use ara.ObjectIdIndex.Effect.{AreIdentifiers}
use ara.Store
use ara.ObjectIdIndex
use ara.GoMap.{get}
use ara.Store.{
  Entity, Store, Found, found, missing, panic, find, found_at, dereference, find_by_object_id, save,
  remove,
}
use ara.Store.Answers.{
  IsSound, IsAnswer, empty-IsSound, save-IsSound, remove-IsSound, find_by_object_id-IsAnswer,
}

pub data Call (M : Type 0) : Type 0 where
  saves : ModelId → M → Call M
  removes : M → Call M

module _ {M : Type 0} ⦃e : Entity M⦄ where
  -- Save, with the UUID that a new model gets, or Delete
  unfoldable pub call : Store M → Call M → Store M
  unfolding save remove
  call s (saves uuid m) = (save s uuid m).0
  call s (removes m) = remove s m

  unfoldable pub run : Store M → List (Call M) → Store M
  unfolding call
  run s [] = s
  run s (c ∷ cs) = run (call s c) cs

  -- The models that the calls save have identifiers as the code builds them.
  abbrev pub AreBuilt : List (Call M) → Type 0
  AreBuilt [] = Unit
  AreBuilt (saves uuid m ∷ cs) = AreIdentifiers (e.object_ids m) × AreBuilt cs
  AreBuilt (removes m ∷ cs) = AreBuilt cs

  run-IsSound : (s : Store M) (cs : List (Call M)) → AreBuilt cs → IsSound s → IsSound (run s cs)
  unfolding run call
  run-IsSound s [] b x = x
  run-IsSound s (saves uuid m ∷ cs) b x =
      run-IsSound (save s uuid m).0 cs b.1 (save-IsSound s uuid m b.0 x)
  run-IsSound s (removes m ∷ cs) b x = run-IsSound (remove s m) cs b (remove-IsSound s m x)

  -- a model that a search returns is what Find gives for its id
  abbrev pub IsKept : Store M → Found M → Type 0
  IsKept s (found m) = find s (e.model_id m) ≡ some m
  IsKept s _ = Unit

  find-kept :
      (s : Store M) (id : ModelId) (m : M)
      → IsSound s
      → get s.by_identifier id ≡ some m
      → find s (e.model_id (e.copy m)) ≡ some (e.copy m)
  unfolding find
  find-kept s id m x h = ground (arith, x.named id m h, e.model_id-copy m)

  found_at-IsKept : (s : Store M) (r : Option ModelId) → IsSound s → IsKept s (found_at s r)
  unfolding found_at dereference
  found_at-IsKept s none x = tt
  found_at-IsKept s (some id) x = elim (Option-cases (get s.by_identifier id)) [
    | inl h ↦ rw h tt
    | inr (m, h) ↦ rw h (find-kept s id m x h)
  ]

  -- After any sequence of Save and Delete calls on a new manager, in which the identifiers of the
  -- saved models are as the code builds them, FindByObjectId never dereferences a missing model,
  -- and a model that it returns has the identifier asked for, and is what Find gives for its own
  -- id.
  pub find_by_object_id-run :
      (cs : List (Call M)) (o : ObjectId)
      → AreBuilt cs
      → IsAnswer o (find_by_object_id (run Store.empty cs) o)
        × IsKept (run Store.empty cs) (find_by_object_id (run Store.empty cs) o)
  unfolding find_by_object_id
  find_by_object_id-run cs o b =
      let s = run Store.empty cs in
      let x = run-IsSound Store.empty cs b empty-IsSound in
      (find_by_object_id-IsAnswer s o x, found_at-IsKept s (ObjectIdIndex.find s.by_object_id o) x)
