-- ===== src/Updates/Stored.antt =====
-- What a line event of model/update_manager.go leaves to be found.
use ara.Prelude.{String, ◌≡◌, ◌≢◌, refl, sym, subst, ap, ◌∙◌, some, [], arith, string_key, true}
use ara.GoMap.{set, delete, get-set}
use ara.ObjectId.{ObjectId, new, set_object_id}
use ara.ObjectIdIndex.{ModelId}
use ara.ObjectIdIndex.Lookups.{carries}
use ara.ObjectIdIndex.Effect.{AreIdentifiers}
use ara.Store
use ara.Store.{Found, found, missing, panic, identified}
use ara.Store.Answers.{IsAnswer, find_by_object_id-IsAnswer}
use ara.Store.Refinement.{find_by_object_id-save}
use ara.Store.Keeping.{IsProperAnswer}
use ara.Schedules.{Time}
use ara.Line
use ara.Line.{Line, line_entity, copy}
use ara.Transaction
use ara.Transaction.{no_changes, commit, search_saved}
use ara.Model.{MemoryModel}
use ara.TransactionalModel.{commit_model}
use ara.TransactionalModel.Soundness.{IsSoundModel}
use ara.UpdateEvents.{LineUpdateEvent}
use ara.Updates.{on_found, find_line, default_identifiers}
use ara.Updates.Journeys.{created_line, store_line, update_line}
use ara.Updates.Soundness.{default_identifiers-AreIdentifiers, tx-IsProperAnswer}

carries-default_identifiers :
    (hash : String → String) (o : ObjectId)
    → o.kind ≢ "_default"
    → carries (default_identifiers hash o) o ≡ true
unfolding default_identifiers set_object_id
carries-default_identifiers hash o n = ground (
  arith,
  get-set (set_object_id [] o) "_default" (new "_default" (hash o.value)) o.kind,
  get-set {V = ObjectId} [] o.kind o o.kind,
)

lines-store_line :
    (hash : String → String) (uuid : ModelId) (now : Time) (model : MemoryModel) (l : Line)
    → (after : MemoryModel) × (store_line hash uuid now model l ≡ some after)
      × (after.lines ≡ (Store.save model.lines uuid (Line.updated l now)).0)
unfolding store_line commit_model commit Transaction.save Transaction.save_all
    Transaction.remove_all Store.save set delete
lines-store_line hash uuid now model l = (_, refl, refl)

tx-find_line :
    (model : MemoryModel) (o : ObjectId) → find_line model o ≡ Store.find_by_object_id model.lines o
unfolding Transaction.find_by_object_id search_saved
tx-find_line model o = refl

-- the line that the event is about: the one found, or a new one
abbrev pub line_of : (String → String) → LineUpdateEvent → Found Line → Line
line_of hash event (found l) = l
line_of hash event missing = created_line hash event
line_of hash event panic = created_line hash event

stored_line :
    (hash : String → String) (uuid : ModelId) (now : Time) (model : MemoryModel)
    (event : LineUpdateEvent) (l : Line)
    → IsSoundModel model
    → AreIdentifiers l.object_ids
    → carries l.object_ids event.object_id ≡ true
    → (after : MemoryModel) × (store_line hash uuid now model l ≡ some after)
      × (find_line after event.object_id ≡ found (copy (identified uuid (Line.updated l now))))
stored_line hash uuid now model event l x a c =
    let (after, e, q) = lines-store_line hash uuid now model l in
    (
      after,
      e,
      tx-find_line after event.object_id
          ∙ ap (λ s. Store.find_by_object_id s event.object_id) q
          ∙ find_by_object_id-save model.lines uuid (Line.updated l now) event.object_id
              x.lines.sound a c,
    )

stored_found :
    (hash : String → String) (uuid : ModelId) (now : Time) (model : MemoryModel)
    (event : LineUpdateEvent) (f : Found Line)
    → IsSoundModel model
    → event.object_id.kind ≢ "_default"
    → IsAnswer event.object_id f
    → IsProperAnswer f
    → (after : MemoryModel) × (on_found f
          (store_line hash uuid now model (created_line hash event))
          (store_line hash uuid now model)
        ≡ some after)
      × (find_line after event.object_id
          ≡ found (copy (identified uuid (Line.updated (line_of hash event f) now))))
stored_found hash uuid now model event (found l) x n a p =
    stored_line hash uuid now model event l x p a
stored_found hash uuid now model event missing x n a p =
    stored_line hash uuid now model event (created_line hash event) x
      (default_identifiers-AreIdentifiers hash event.object_id)
      (carries-default_identifiers hash event.object_id n)
stored_found hash uuid now model event panic x n a p = absurd a

-- On a sound model, updateLine on an identifier of another kind than `_default` ends, and the
-- identifier then finds a copy of the line that it found before, or else of a new one made from
-- the event, collected now, with its id or the UUID if it has none.
pub find_line-update_line :
    (hash : String → String) (uuid : ModelId) (now : Time) (model : MemoryModel)
    (event : LineUpdateEvent)
    → IsSoundModel model
    → event.object_id.kind ≢ "_default"
    → (after : MemoryModel) × (update_line hash uuid now model event ≡ some after)
      × (find_line after event.object_id
          ≡ found (
              copy (
                identified uuid
                  (Line.updated (line_of hash event (find_line model event.object_id)) now))))
unfolding update_line
find_line-update_line hash uuid now model event x n =
    stored_found hash uuid now model event (find_line model event.object_id) x n
      (subst (IsAnswer event.object_id) (sym (tx-find_line model event.object_id))
        (find_by_object_id-IsAnswer model.lines event.object_id x.lines.sound))
      (tx-IsProperAnswer model.lines event.object_id x.lines)
