-- ===== src/Updates/Marks.antt =====
-- updateStatus and updateMonitoredStopArea of model/update_manager.go: the stop area of the event
-- and all above it get the status of the partner.
use ara.Prelude.{
  String, ◌≡◌, refl, sym, Bool, Option, none, some, List, [], ◌∷◌, ite, if◌then◌else◌, arith,
  string_dec, string_key,
}
use ara.GoMap.{Map, get, get-set}
use ara.GoMap.Keys.{has}
use ara.ObjectIdIndex.{ModelId}
use ara.Store.{identified}
use ara.Store.Links.{ids_of}
use ara.StopArea.{StopArea, copy, stop_area_entity, set_partner_status}
use ara.StopAreas.Climbed.{IsKept, AreKept}
use ara.Transaction
use ara.Transaction.{Changes, no_changes, find_saved, commit, save_all, remove_all}
use ara.Transaction.{find_saved, commit, save_all, remove_all}
use ara.Transaction.Commit.{AreChanges, find-commit}
use ara.Transaction.Reads.{no_changes-AreChanges, save-AreChanges}
use ara.TransactionalStopAreas
use ara.TransactionalStopAreas.{revise}
use ara.Model.{MemoryModel}
use ara.TransactionalModel.{each, commit_to, commit_stop_areas, commit_model}
use ara.UpdateEvents.{StatusUpdateEvent}
use ara.StopAreas
use ara.StopAreas.{StopAreas}
use ara.StopAreas.Climbed.{find_ascendants-AreKept}
use ara.Store.Links.{IsNamed}
use ara.Store
use ara.GoMap.{get-[]}
use ara.Prelude.{ℕ, none, ap, ◌∙◌}
use ara.Transaction.{no_changes}
use ara.Updates.{update_status, commit_marks, mark_all}

-- a stop area that has an id, or gets the empty one, stays as it is
pub identified_blank : (sa : StopArea) → identified "" sa ≡ sa
unfolding identified
identified_blank sa = elim (string_dec sa.id "") as (λ d. ite d (record sa { id = "" }) sa ≡ sa) [
  | yes p ↦ (λ i. record sa { id = (sym p) i })
  | no _ ↦ refl
]

id-set_partner_status :
    (sa : StopArea) (partner : String) (status : Bool)
    → (set_partner_status sa partner status).id ≡ sa.id
unfolding set_partner_status
id-set_partner_status sa partner status = refl

abbrev pub marked : String → Bool → Option StopArea → Option StopArea
marked partner status none = none
marked partner status (some sa) = some (set_partner_status (copy sa) partner status)

get-mark_one :
    (by : Map ModelId StopArea) (partner : String) (status : Bool) (tx : Changes StopArea)
    (sa : StopArea) (j : ModelId)
    → IsKept by sa
    → get (Transaction.save tx "" (set_partner_status sa partner status)).0.saved j
      ≡ ite (string_dec sa.id j) (marked partner status (get by j)) (get tx.saved j)
unfolding Transaction.save
get-mark_one by partner status tx sa j (m, g, q) =
    let sa' = set_partner_status sa partner status in
    ground (
      arith,
      get-set tx.saved (identified "" sa').id (identified "" sa') j,
      identified_blank sa',
      id-set_partner_status sa partner status,
    )

get-mark_all :
    (by : Map ModelId StopArea) (partner : String) (status : Bool) (tx : Changes StopArea)
    (l : List StopArea) (j : ModelId)
    → AreKept by l
    → get (mark_all partner status tx l).saved j
      ≡ (if has (ids_of l) j then marked partner status (get by j) else get tx.saved j)
unfolding mark_all has
get-mark_all by partner status tx [] j k = refl
get-mark_all by partner status tx (sa ∷ l) j k = ground (
  arith,
  get-mark_all by partner status (Transaction.save tx "" (set_partner_status sa partner status)).0 l
      j k.1,
  get-mark_one by partner status tx sa j k.0,
)

mark_all-AreChanges :
    (partner : String) (status : Bool) (tx : Changes StopArea) (l : List StopArea)
    → AreChanges tx
    → AreChanges (mark_all partner status tx l)
unfolding mark_all
mark_all-AreChanges partner status tx [] c = c
mark_all-AreChanges partner status tx (sa ∷ l) c =
    mark_all-AreChanges partner status
      (Transaction.save tx "" (set_partner_status sa partner status)).0 l
      (save-AreChanges tx "" (set_partner_status sa partner status) c)

deleted-mark_all :
    (partner : String) (status : Bool) (tx : Changes StopArea) (l : List StopArea)
    → (mark_all partner status tx l).deleted ≡ tx.deleted
unfolding mark_all Transaction.save
deleted-mark_all partner status tx [] = refl
deleted-mark_all partner status tx (sa ∷ l) =
    deleted-mark_all partner status
      (Transaction.save tx "" (set_partner_status sa partner status)).0 l

each-keep :
    (manager : StopAreas) (by : Map ModelId StopArea)
    → (each StopAreas.keep manager by).store ≡ save_all manager.store by
unfolding each save_all StopAreas.keep
each-keep manager [] = refl
each-keep manager ((_, sa) ∷ rest) = each-keep (StopAreas.keep manager sa) rest

each-remove :
    (manager : StopAreas) (by : Map ModelId StopArea)
    → (each StopAreas.remove manager by).store ≡ remove_all manager.store by
unfolding each remove_all StopAreas.remove
each-remove manager [] = refl
each-remove manager ((_, sa) ∷ rest) = each-remove (StopAreas.remove manager sa) rest

-- The commit to the manager is the commit to its store.
pub store-commit_stop_areas :
    (tx : Changes StopArea) (manager : StopAreas)
    → (commit_stop_areas tx manager).store ≡ commit tx manager.store
unfolding commit_stop_areas commit_to commit
store-commit_stop_areas tx manager =
    each-keep (each StopAreas.remove manager tx.deleted) tx.saved
    ∙ ap (λ s. save_all s tx.saved) (each-remove manager tx.deleted)

pub revise-no_changes : (l : List StopArea) → revise no_changes l ≡ l
unfolding revise
revise-no_changes [] = refl
revise-no_changes (sa ∷ l) = ground (arith, revise-no_changes l, get-[] {V = StopArea} sa.id)

find-marked :
    (model : MemoryModel) (partner : String) (status : Bool) (l : List StopArea) (j : ModelId)
    → AreKept model.stop_areas.store.by_identifier l
    → Store.find (commit (mark_all partner status no_changes l) model.stop_areas.store) j ≡ (
        if has (ids_of l) j
        then find_saved
            (marked partner status (get model.stop_areas.store.by_identifier j))
            (Store.find model.stop_areas.store j)
        else Store.find model.stop_areas.store j)
unfolding find_saved
find-marked model partner status l j k =
    let tx = mark_all partner status no_changes l in
    find-commit tx model.stop_areas.store j
      (mark_all-AreChanges partner status no_changes l no_changes-AreChanges)
    ∙ ground (
      arith,
      get-mark_all model.stop_areas.store.by_identifier partner status no_changes l j k,
      deleted-mark_all partner status no_changes l,
      get-[] {V = StopArea} j,
    )

abbrev pub revised {ℓ} : {A : Type ℓ} → (A → A) → Option A → Option A
revised f none = none
revised f (some a) = some (f a)

-- what updateStatus makes of a stop area that it finds above the one of the event, as Find copies it
abbrev pub with_status : String → Bool → StopArea → StopArea
with_status partner status sa = copy (set_partner_status sa partner status)

find-revised :
    (model : MemoryModel) (partner : String) (status : Bool) (j : ModelId)
    → find_saved
        (marked partner status (get model.stop_areas.store.by_identifier j))
        (Store.find model.stop_areas.store j)
      ≡ revised (with_status partner status) (Store.find model.stop_areas.store j)
unfolding find_saved Store.find
find-revised model partner status j = ground arith

pub find_ascendants-no_changes :
    (depth : ℕ) (manager : StopAreas) (id : ModelId) (l : List StopArea)
    → StopAreas.find_ascendants depth manager.store.by_identifier id ≡ some l
    → TransactionalStopAreas.find_ascendants depth no_changes manager id ≡ some l
unfolding TransactionalStopAreas.find_ascendants
find_ascendants-no_changes depth manager id l e = rw (e, revise-no_changes l)

-- updateStatus ends, and is a call of SetPartnerStatus on each stop area of the list
pub update_status_lem :
    (depth : ℕ) (model : MemoryModel) (event : StatusUpdateEvent) (l : List StopArea)
    → IsNamed model.stop_areas.store.by_identifier
    → StopAreas.find_ascendants depth model.stop_areas.store.by_identifier event.stop_area_id
      ≡ some l
    → (after : MemoryModel) × (update_status depth model event ≡ some after)
      × ((j : ModelId)
          → StopAreas.find after.stop_areas j ≡ (
              if has (ids_of l) j
              then revised
                  (with_status event.partner event.status)
                  (StopAreas.find model.stop_areas j)
              else StopAreas.find model.stop_areas j))
unfolding update_status commit_marks commit_model StopAreas.find
update_status_lem depth model event l n e = (
  commit_marks model event.partner event.status l,
  rw (find_ascendants-no_changes depth model.stop_areas event.stop_area_id l e),
  λ j. ground (
    arith,
    store-commit_stop_areas (mark_all event.partner event.status no_changes l) model.stop_areas,
    find-marked model event.partner event.status l j (
        find_ascendants-AreKept depth model.stop_areas.store.by_identifier event.stop_area_id l n
          e),
    find-revised model event.partner event.status j,
  ),
)
