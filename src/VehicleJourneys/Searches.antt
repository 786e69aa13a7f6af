-- ===== src/VehicleJourneys/Searches.antt =====
-- The search by line of model/vehicle_journey.go.
use ara.Prelude.{true, string_key}
use ara.GoMap.{get}
use ara.ObjectIdIndex.{ModelId}
use ara.ObjectIdIndex.Effect.{AreIdentifiers}
use ara.Store
use ara.Store.{identified}
use ara.Store.Answers.{
  IsSound, empty-IsSound, keep-IsSound, identified-AreIdentifiers, remove-IsSound,
}
use ara.Store.Links.{
  IsLinked, empty-IsLinked, save-IsLinked, remove-IsLinked, listed, Lists, follow-Lists,
}
use ara.VehicleJourneys.{
  VehicleJourney, VehicleJourneys, vehicle_journey_entity, empty, keep, save, remove,
  find_by_line_id,
}

-- The store is sound, and the index assigns to a vehicle journey its line.
pub record IsWhole (manager : VehicleJourneys) : Type 0 where
  pub sound : IsSound manager.store
  pub lines : IsLinked (λ vj. vj.line_id) manager.store.by_identifier manager.by_line

pub empty-IsWhole : IsWhole empty
empty-IsWhole = record { sound = empty-IsSound; lines = empty-IsLinked (λ v. v.line_id) }

pub keep-IsWhole :
    (manager : VehicleJourneys) (vj : VehicleJourney)
    → AreIdentifiers vj.object_ids
    → IsWhole manager
    → IsWhole (keep manager vj)
unfolding keep Store.keep
keep-IsWhole manager vj a w = record {
  sound = unfold Store.keep in keep-IsSound manager.store vj a w.sound;
  lines = save-IsLinked (λ v. v.line_id) manager.store.by_identifier manager.by_line vj w.lines;
}

-- Save keeps a manager whole.
pub save-IsWhole :
    (manager : VehicleJourneys) (uuid : ModelId) (vj : VehicleJourney)
    → AreIdentifiers vj.object_ids
    → IsWhole manager
    → IsWhole (save manager uuid vj).0
unfolding save
save-IsWhole manager uuid vj a w =
    keep-IsWhole manager (identified uuid vj) (identified-AreIdentifiers uuid vj a) w

-- Delete keeps a manager whole.
pub remove-IsWhole :
    (manager : VehicleJourneys) (vj : VehicleJourney)
    → IsWhole manager
    → IsWhole (remove manager vj)
unfolding remove Store.remove
remove-IsWhole manager vj w = record {
  sound = remove-IsSound manager.store vj w.sound;
  lines =
      remove-IsLinked (λ v. v.line_id) manager.store.by_identifier manager.by_line vj.id w.lines;
}

-- On a whole manager FindByLineId lists each kept vehicle journey of the line once and no other.
pub find_by_line_id-Lists :
    (manager : VehicleJourneys) (line : ModelId)
    → IsWhole manager
    → Lists
        (λ id. listed (λ vj. vj.line_id) (λ _. true) line (get manager.store.by_identifier id))
        (find_by_line_id manager line)
unfolding find_by_line_id
find_by_line_id-Lists manager line w =
    follow-Lists (λ vj. vj.line_id) (λ _. true) manager.store.by_identifier manager.by_line line
      w.sound.named w.lines
