-- ===== src/Updates/Soundness.antt =====
-- Every update of model/update_manager.go ends with a sound model.
use ara.Prelude.{
  ℕ, String, ◌≡◌, refl, Bool, Option, some, List, [], ◌∷◌, ite, string_dec, string_key,
}
use ara.GoMap.{Map, set, delete}
use ara.ObjectId.{ObjectId, ObjectIds, new, set_object_id}
use ara.ObjectId.Laws.{set_object_id-IsKeyed, set_object_id-IsDistinct}
use ara.ObjectIdIndex.{ModelId}
use ara.ObjectIdIndex.Effect.{AreIdentifiers, []-AreIdentifiers}
use ara.Store
use ara.Store.{Entity, Store, Found, found, missing, panic}
use ara.Store.Answers.{identified-AreIdentifiers}
use ara.Store.Keeping.{IsProper, IsProperAnswer, find_by_object_id-IsProper}
use ara.StopArea.{StopArea, object_ids-copy, stop_area_entity, set_partner_status}
use ara.StopAreas
use ara.StopAreas.Climbed.{AreKept, find_ascendants-AreKept}
use ara.StopVisit.{stop_visit_entity}
use ara.VehicleJourneys.{vehicle_journey_entity}
use ara.Line.{line_entity}
use ara.Vehicles.{vehicle_entity}
use ara.Transaction
use ara.Transaction.{Changes, no_changes, search_saved, find_saved}
use ara.Transaction.Reads.{HaveIdentifiers}
use ara.Model.{MemoryModel}
use ara.TransactionalModel.{TransactionalModel, begin, commit_model}
use ara.TransactionalModel.Soundness.{IsSoundModel, HasIdentifiers, commit_model-IsSoundModel}
use ara.UpdateEvents.{StatusUpdateEvent}
use ara.Updates.{
  on_found, mark_all, commit_marks, update_monitored_stop_area, update_status, default_identifiers,
}
use ara.Updates.Marks.{find_ascendants-no_changes}

-- The run ends without a panic, with a sound model.
abbrev pub IsRun : Option MemoryModel → Type 0
IsRun run = (after : MemoryModel) × (run ≡ some after) × IsSoundModel after

-- findAscendants ends with a list within the depth, whatever stop area it starts from.
abbrev pub EndsWithin : ℕ → MemoryModel → Type 0
EndsWithin depth model =
    (id : ModelId)
    → (l : List StopArea) × (StopAreas.find_ascendants depth model.stop_areas.store.by_identifier id
        ≡ some l)

pub on_found-IsRun :
    {M : Type 0} ⦃e : Entity M⦄ (f : Found M) (absent : Option MemoryModel)
    (k : M → Option MemoryModel)
    → IsProperAnswer f
    → IsRun absent
    → ((m : M) → AreIdentifiers (e.object_ids m) → IsRun (k m))
    → IsRun (on_found f absent k)
on_found-IsRun (found m) absent k p h r = r m p
on_found-IsRun missing absent k p h r = h
on_found-IsRun panic absent k p h r = absurd p

pub some-IsRun : (model : MemoryModel) → IsSoundModel model → IsRun (some model)
some-IsRun model x = (model, refl, x)

pub commit-IsRun :
    (tx : TransactionalModel) (model : MemoryModel)
    → HasIdentifiers tx
    → IsSoundModel model
    → IsRun (some (commit_model tx model))
commit-IsRun tx model h x = (commit_model tx model, refl, commit_model-IsSoundModel tx model h x)

pub set_object_id-AreIdentifiers :
    (ids : ObjectIds) (o : ObjectId) → AreIdentifiers ids → AreIdentifiers (set_object_id ids o)
set_object_id-AreIdentifiers ids o a = record {
  distinct = set_object_id-IsDistinct ids o a.distinct;
  keyed = set_object_id-IsKeyed ids o a.keyed;
}

pub single-AreIdentifiers : (o : ObjectId) → AreIdentifiers (set_object_id [] o)
single-AreIdentifiers o = set_object_id-AreIdentifiers [] o []-AreIdentifiers

pub default_identifiers-AreIdentifiers :
    (hash : String → String) (o : ObjectId) → AreIdentifiers (default_identifiers hash o)
unfolding default_identifiers
default_identifiers-AreIdentifiers hash o =
    set_object_id-AreIdentifiers (set_object_id [] o) (new "_default" (hash o.value))
      (single-AreIdentifiers o)

module _ {M : Type 0} ⦃e : Entity M⦄ where
  delete-HaveIdentifiers :
      (by : Map ModelId M) (k : ModelId) → HaveIdentifiers by → HaveIdentifiers (delete by k)
  unfolding delete
  delete-HaveIdentifiers [] k h = tt
  delete-HaveIdentifiers ((j, m) ∷ rest) k h =
      let r = delete-HaveIdentifiers rest k h.1 in
      elim (string_dec j k)
        as (λ d. HaveIdentifiers (ite d (delete rest k) ((j, m) ∷ delete rest k))) [
          | yes _ ↦ r
          | no _ ↦ (h.0, r)
        ]

  pub save-HaveIdentifiers :
      (tx : Changes M) (uuid : ModelId) (m : M)
      → AreIdentifiers (e.object_ids m)
      → HaveIdentifiers tx.saved
      → HaveIdentifiers (Transaction.save tx uuid m).0.saved
  unfolding Transaction.save set
  save-HaveIdentifiers tx uuid m a h = (
    identified-AreIdentifiers uuid m a,
    delete-HaveIdentifiers tx.saved (e.model_id (Store.identified uuid m)) h,
  )

  pub tx-IsProperAnswer :
      (s : Store M) (o : ObjectId)
      → IsProper s
      → IsProperAnswer (Transaction.find_by_object_id no_changes s o)
  unfolding Transaction.find_by_object_id search_saved
  tx-IsProperAnswer s o x = find_by_object_id-IsProper s o x

object_ids-set_partner_status :
    (sa : StopArea) (partner : String) (status : Bool)
    → (set_partner_status sa partner status).object_ids ≡ sa.object_ids
unfolding set_partner_status
object_ids-set_partner_status sa partner status = refl

mark_all-HaveIdentifiers :
    (model : MemoryModel) (partner : String) (status : Bool) (tx : Changes StopArea)
    (l : List StopArea)
    → IsProper model.stop_areas.store
    → AreKept model.stop_areas.store.by_identifier l
    → HaveIdentifiers tx.saved
    → HaveIdentifiers (mark_all partner status tx l).saved
unfolding mark_all
mark_all-HaveIdentifiers model partner status tx [] x k h = h
mark_all-HaveIdentifiers model partner status tx (sa ∷ l) x ((m, g, q), k) h =
    mark_all-HaveIdentifiers model partner status
      (Transaction.save tx "" (set_partner_status sa partner status)).0 l x k
      (save-HaveIdentifiers tx "" (set_partner_status sa partner status)
        (rw (object_ids-set_partner_status sa partner status, q, object_ids-copy m)
          (x.identifiers sa.id m g))
        h)

pub commit_marks-IsSoundModel :
    (model : MemoryModel) (partner : String) (status : Bool) (l : List StopArea)
    → IsSoundModel model
    → AreKept model.stop_areas.store.by_identifier l
    → IsSoundModel (commit_marks model partner status l)
unfolding commit_marks
commit_marks-IsSoundModel model partner status l x k =
    commit_model-IsSoundModel (record begin { stop_areas = mark_all partner status no_changes l })
      model
      (record {
        stop_areas = mark_all-HaveIdentifiers model partner status no_changes l x.stop_areas k tt;
        stop_visits = tt;
        vehicle_journeys = tt;
        lines = tt;
        vehicles = tt;
      })
      x

pub update_monitored_stop_area-IsRun :
    (depth : ℕ) (model : MemoryModel) (id : ModelId) (partner : String) (status : Bool)
    → IsSoundModel model
    → EndsWithin depth model
    → IsRun (update_monitored_stop_area depth model id partner status)
unfolding update_monitored_stop_area
update_monitored_stop_area-IsRun depth model id partner status x ends =
    let (l, e) = ends id in
    (
      commit_marks model partner status l,
      rw (find_ascendants-no_changes depth model.stop_areas id l e),
      commit_marks-IsSoundModel model partner status l x (
          find_ascendants-AreKept depth model.stop_areas.store.by_identifier id l
            x.stop_areas.sound.named e),
    )

pub update_status-IsRun :
    (depth : ℕ) (model : MemoryModel) (event : StatusUpdateEvent)
    → IsSoundModel model
    → EndsWithin depth model
    → IsRun (update_status depth model event)
unfolding update_status
update_status-IsRun depth model event x ends =
    unfold update_monitored_stop_area in
    update_monitored_stop_area-IsRun depth model event.stop_area_id event.partner event.status x
      ends
