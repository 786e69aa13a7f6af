-- ===== src/ModelGuardian/Bounds.antt =====
-- When refreshStopAreas of core/model_guardian.go asks for a stop area again.
use ara.Prelude.{
  ℕ, if_pos, if_neg, ◌+◌, ◌*◌, ◌<◌, ◌≤◌, ◌≡◌, ◌≢◌, refl, sym, ap, ◌∙◌, true, some, ite, string_dec,
  string_key, arith, Option-cases, inl, inr,
}
use ara.GoMap.{get}
use ara.ObjectIdIndex.{ModelId}
use ara.Schedules.{Time}
use ara.Store
use ara.Store.{identified}
use ara.Store.Links.{IsNamed}
use ara.Store.Refinement.{find-keep}
use ara.StopArea
use ara.StopArea.{StopArea, copy, id-copy, stop_area_entity}
use ara.StopAreas
use ara.Updates.Marks.{identified_blank}
use ara.Model.{MemoryModel}
use ara.ModelGuardian.{second, is_due, next_time, put_off, visit_stop_area}

next_collect_at-copy : (sa : StopArea) → (copy sa).next_collect_at ≡ sa.next_collect_at
unfolding copy
next_collect_at-copy sa = refl

found-id :
    (model : MemoryModel) (id : ModelId) (sa : StopArea)
    → IsNamed model.stop_areas.store.by_identifier
    → StopAreas.find model.stop_areas id ≡ some sa
    → sa.id ≡ id
unfolding StopAreas.find Store.find
found-id model id sa n f = elim (Option-cases (get model.stop_areas.store.by_identifier id)) [
  | inl e ↦ absurd (ground arith)
  | inr (m, e) ↦ let q : copy m ≡ sa = ground arith in ap (λ s. s.id) (sym q) ∙ id-copy m ∙ n id m e
]

find-saved :
    (model : MemoryModel) (sa : StopArea) (j : ModelId)
    → StopAreas.find (StopAreas.save model.stop_areas "" sa).0 j
      ≡ ite
          (string_dec (identified "" sa).id j)
          (some (copy (identified "" sa)))
          (StopAreas.find model.stop_areas j)
unfolding StopAreas.find StopAreas.save StopAreas.keep
find-saved model sa j = find-keep model.stop_areas.store (identified "" sa) j

find-put_off :
    (model : MemoryModel) (sa : StopArea) (j : ModelId)
    → StopAreas.find (StopAreas.save model.stop_areas "" sa).0 j
      ≡ ite (string_dec sa.id j) (some (copy sa)) (StopAreas.find model.stop_areas j)
find-put_off model sa j = find-saved model sa j ∙ ground (arith, identified_blank sa)

-- the stop area with a next collect 40 to 59 seconds from now
pub record IsPutOff (now : Time) (before after : StopArea) : Type 0 where
  pub earliest : now + 40 * second ≤ after.next_collect_at
  pub latest : after.next_collect_at ≤ now + 59 * second
  pub rest : after ≡ copy (StopArea.next_collect before after.next_collect_at)

next_time-IsPutOff :
    (now : Time) (drawn : ℕ) (sa : StopArea)
    → drawn < 20
    → IsPutOff now sa (copy (StopArea.next_collect sa (next_time now drawn)))
next_time-IsPutOff now drawn sa d = record {
  earliest =
      rw (next_collect_at-copy (StopArea.next_collect sa (next_time now drawn))) (omega arith);
  latest = rw (next_collect_at-copy (StopArea.next_collect sa (next_time now drawn))) (omega arith);
  rest =
      ap (λ t. copy (StopArea.next_collect sa t))
        (sym (next_collect_at-copy (StopArea.next_collect sa (next_time now drawn))));
}

-- Where the stop areas are kept under their own ids and the number drawn is below 20, a visit to a
-- stop area that is due, and is found, ends: its next collect is then 40 to 59 seconds from now,
-- it is otherwise as it was found, and every other stop area is as before.
pub visit_stop_area-IsPutOff :
    (now : Time) (drawn : ℕ) (model : MemoryModel) (listed sa : StopArea)
    → IsNamed model.stop_areas.store.by_identifier
    → drawn < 20
    → is_due model now listed ≡ true
    → StopAreas.find model.stop_areas listed.id ≡ some sa
    → (after : MemoryModel) × (visit_stop_area now drawn model listed ≡ some after)
      × ((next : StopArea) × (StopAreas.find after.stop_areas listed.id ≡ some next)
          × IsPutOff now sa next)
      × ((j : ModelId)
          → j ≢ listed.id
          → StopAreas.find after.stop_areas j ≡ StopAreas.find model.stop_areas j)
unfolding visit_stop_area put_off
visit_stop_area-IsPutOff now drawn model listed sa n d due f =
    let next = StopArea.next_collect sa (next_time now drawn) in
    let same = found-id model listed.id sa n f in
    (
      record model { stop_areas = (StopAreas.save model.stop_areas "" next).0 },
      rw (due, f) refl,
      (
        copy next,
        find-put_off model next listed.id ∙ if_pos (string_dec next.id listed.id) same _ _,
        next_time-IsPutOff now drawn sa d,
      ),
      λ j other.
          find-put_off model next j ∙ if_neg (string_dec next.id j) (λ e. other (sym e ∙ same)) _ _,
    )
