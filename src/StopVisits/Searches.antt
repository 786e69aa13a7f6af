-- ===== src/StopVisits/Searches.antt =====
-- The searches of model/stop_visit.go that follow its indexes.
use ara.Prelude.{Bool, ◌≡◌, true, List, arith, string_key}
use ara.GoMap.{get}
use ara.ObjectIdIndex.{ModelId}
use ara.ObjectIdIndex.Effect.{AreIdentifiers}
use ara.Index.Slots.{count}
use ara.Store
use ara.Store.{identified}
use ara.Store.Answers.{
  IsSound, empty-IsSound, keep-IsSound, identified-AreIdentifiers, remove-IsSound,
}
use ara.Store.Links.{
  IsLinked, empty-IsLinked, save-IsLinked, remove-IsLinked, ids_of, listed, Lists, follow-Lists,
}
use ara.Schedules.{Time}
use ara.StopVisit.{StopVisit, stop_visit_entity}
use ara.StopVisits.{
  StopVisits, empty, keep, save, remove, find_by_stop_area_id, is_following,
  find_following_by_stop_area_id,
}

-- The store is sound, and each index assigns to a stop visit its stop area or its vehicle journey.
pub record IsWhole (manager : StopVisits) : Type 0 where
  pub sound : IsSound manager.store
  pub areas : IsLinked (λ sv. sv.stop_area_id) manager.store.by_identifier manager.by_stop_area
  pub journeys :
      IsLinked (λ sv. sv.vehicle_journey_id) manager.store.by_identifier manager.by_vehicle_journey

pub empty-IsWhole : (broadcasts : Bool) → IsWhole (empty broadcasts)
empty-IsWhole broadcasts = record {
  sound = empty-IsSound;
  areas = empty-IsLinked (λ s. s.stop_area_id);
  journeys = empty-IsLinked (λ s. s.vehicle_journey_id);
}

pub keep-IsWhole :
    (manager : StopVisits) (sv : StopVisit)
    → AreIdentifiers sv.object_ids
    → IsWhole manager
    → IsWhole (keep manager sv)
unfolding keep Store.keep
keep-IsWhole manager sv a w = record {
  sound = unfold Store.keep in keep-IsSound manager.store sv a w.sound;
  areas =
      save-IsLinked (λ s. s.stop_area_id) manager.store.by_identifier manager.by_stop_area sv
        w.areas;
  journeys =
      save-IsLinked (λ s. s.vehicle_journey_id) manager.store.by_identifier
        manager.by_vehicle_journey sv w.journeys;
}

-- Save keeps a manager whole, where the identifiers of the stop visit are as the code builds them:
-- the store stays sound, and each index assigns to every kept stop visit its stop area or its
-- vehicle journey.
pub save-IsWhole :
    (manager : StopVisits) (uuid : ModelId) (sv : StopVisit)
    → AreIdentifiers sv.object_ids
    → IsWhole manager
    → IsWhole (save manager uuid sv).0
unfolding save
save-IsWhole manager uuid sv a w =
    keep-IsWhole manager (identified uuid sv) (identified-AreIdentifiers uuid sv a) w

pub remove-IsWhole :
    (manager : StopVisits) (sv : StopVisit) → IsWhole manager → IsWhole (remove manager sv)
unfolding remove Store.remove
remove-IsWhole manager sv w = record {
  sound = remove-IsSound manager.store sv w.sound;
  areas =
      remove-IsLinked (λ s. s.stop_area_id) manager.store.by_identifier manager.by_stop_area sv.id
        w.areas;
  journeys =
      remove-IsLinked (λ s. s.vehicle_journey_id) manager.store.by_identifier
        manager.by_vehicle_journey sv.id w.journeys;
}

-- On a whole manager FindByStopAreaId dereferences no missing stop visit, and its answer holds the
-- id of each kept stop visit of the stop area once and no other id.
pub find_by_stop_area_id-Lists :
    (manager : StopVisits) (area : ModelId)
    → IsWhole manager
    → Lists
        (λ id. listed (λ sv. sv.stop_area_id) (λ _. true) area (get manager.store.by_identifier id))
        (find_by_stop_area_id manager area)
unfolding find_by_stop_area_id
find_by_stop_area_id-Lists manager area w =
    follow-Lists (λ sv. sv.stop_area_id) (λ _. true) manager.store.by_identifier
      manager.by_stop_area area w.sound.named w.areas

-- On a whole manager, and with a sort that keeps how often each id stands in a slice,
-- FindFollowingByStopAreaId dereferences no missing stop visit, and its answer holds once the id
-- of each kept stop visit of the stop area whose reference time is after now, and no other id.
pub find_following_by_stop_area_id-Lists :
    (sort : List StopVisit → List StopVisit) (now : Time) (manager : StopVisits) (area : ModelId)
    → ((l : List StopVisit) (id : ModelId) → count id (ids_of (sort l)) ≡ count id (ids_of l))
    → IsWhole manager
    → Lists
        (λ id.
          listed
            (λ sv. sv.stop_area_id)
            (is_following now)
            area
            (get manager.store.by_identifier id))
        (find_following_by_stop_area_id sort now manager area)
unfolding find_following_by_stop_area_id
find_following_by_stop_area_id-Lists sort now manager area keeps w =
    let (l, h, n) =
      follow-Lists (λ sv. sv.stop_area_id) (is_following now) manager.store.by_identifier
        manager.by_stop_area area w.sound.named w.areas in
    (sort l, rw h, λ id. ground (arith, keeps l id, n id))
