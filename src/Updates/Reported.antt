-- ===== src/Updates/Reported.antt =====
-- What updateStatus of model/update_manager.go makes of the stop areas that it marks.
use ara.Prelude.{
  ℕ, String, ◌≡◌, ◌≢◌, ◌↔◌, refl, Bool, true, false, Option, none, some, List, if◌then◌else◌, arith,
  string_key, Option-cases, inl, inr, subst,
}
use ara.GoMap.{get, set, get-set, set-IsDistinct, IsDistinct}
use ara.GoMap.Loops.{fill-IsDistinct}
use ara.GoMap.Keys.{has}
use ara.ObjectIdIndex.{ModelId}
use ara.Origins
use ara.Origins.{Origins}
use ara.Origins.Status.{monitored_iff, get-copy}
use ara.Store
use ara.Store.Links.{ids_of, IsNamed}
use ara.StopArea.{StopArea, copy, stop_area_entity, set_partner_status}
use ara.StopAreas
use ara.StopAreas.{StopAreas}
use ara.Connectors.{same}
use ara.Model.{MemoryModel}
use ara.UpdateEvents.{StatusUpdateEvent}
use ara.Updates.{update_status}
use ara.Updates.Marks.{with_status, revised, update_status_lem}

-- The partner has the status, every other partner the one it had; the stop area is monitored exactly
-- if no partner is down; and the rest is a copy of what there was.
pub record IsReported (partner : String) (status : Bool) (before after : StopArea) : Type 0 where
  pub origins_lem :
      (p : String)
      → get after.origins p ≡ (if same p partner then some status else get before.origins p)
  pub monitored_lem : (after.monitored ≡ true) ↔ ((p : String) → get after.origins p ≢ some false)
  pub rest_lem :
      (o : Origins) × (after ≡ copy (record before { origins = o; monitored = after.monitored }))

copied-IsDistinct : (o : Origins) → IsDistinct (Origins.copy o)
unfolding Origins.copy
copied-IsDistinct o = fill-IsDistinct (λ _ status. status) Origins.empty o tt

with_status-IsReported :
    (partner : String) (status : Bool) (sa : StopArea)
    → IsDistinct sa.origins
    → IsReported partner status sa (with_status partner status sa)
unfolding copy set_partner_status Origins.set_partner_status
with_status-IsReported partner status sa d =
    let o = set sa.origins partner status in
    let e = set-IsDistinct sa.origins partner status d in
    record {
      origins_lem = λ p. ground (arith, get-copy o p e, get-set sa.origins partner status p);
      monitored_lem = (
        λ h p. rw (get-copy o p e) ((monitored_iff o e).0 h p),
        λ h. (monitored_iff o e).1 (λ p. rw⁻¹ (get-copy o p e) (h p)),
      );
      rest_lem = (o, refl);
    }

-- the stop area before and after, by whether the event is about it
abbrev pub IsOutcome : String → Bool → Bool → Option StopArea → Option StopArea → Type 0
IsOutcome partner status true (some before) after =
    (next : StopArea) × (after ≡ some next) × IsReported partner status before next
IsOutcome partner status _ before after = after ≡ before

found-IsDistinct :
    (manager : StopAreas) (j : ModelId) (sa : StopArea)
    → StopAreas.find manager j ≡ some sa
    → IsDistinct sa.origins
unfolding StopAreas.find Store.find copy
found-IsDistinct manager j sa e = elim (Option-cases (get manager.store.by_identifier j)) [
  | inl f ↦ absurd (ground arith)
  | inr (m, f) ↦
      let q : copy m ≡ sa = ground arith in
      subst (λ s. IsDistinct s.origins) q (copied-IsDistinct m.origins)
]

outcome :
    (partner : String) (status listed : Bool) (before : Option StopArea)
    → ((sa : StopArea) → before ≡ some sa → IsDistinct sa.origins)
    → IsOutcome partner status listed before
        (if listed then revised (with_status partner status) before else before)
outcome partner status true none d = refl
outcome partner status true (some sa) d =
    (with_status partner status sa, refl, with_status-IsReported partner status sa (d sa refl))
outcome partner status false none d = refl
outcome partner status false (some sa) d = refl

-- Where each stop area is kept under its own id and findAscendants ends with a list for the stop
-- area of the event, updateStatus ends: every stop area of the list then has the status for the
-- partner and its old one for every other, is monitored exactly if no partner is down, and is
-- otherwise a copy of what it was; every other stop area is as before.
pub find-update_status :
    (depth : ℕ) (model : MemoryModel) (event : StatusUpdateEvent) (l : List StopArea)
    → IsNamed model.stop_areas.store.by_identifier
    → StopAreas.find_ascendants depth model.stop_areas.store.by_identifier event.stop_area_id
      ≡ some l
    → (after : MemoryModel) × (update_status depth model event ≡ some after)
      × ((j : ModelId)
          → IsOutcome event.partner event.status
              (has (ids_of l) j)
              (StopAreas.find model.stop_areas j)
              (StopAreas.find after.stop_areas j))
find-update_status depth model event l n e =
    let (after, run, all) = update_status_lem depth model event l n e in
    (
      after,
      run,
      λ j. rw (all j) (
          outcome event.partner event.status (has (ids_of l) j) (StopAreas.find model.stop_areas j)
            (found-IsDistinct model.stop_areas j)),
    )
