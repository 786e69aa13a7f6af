-- ===== src/Examples/Visits.antt =====
-- The manager of stop visits at a concrete stop visit.
use ara.Prelude.{refl, true, [], ◌∷◌, string_key}
use ara.GoMap.{get}
use ara.StopVisit.{
  StopVisit, select_by_time, select_after_time, select_before_time, composite,
  select_by_time-composite,
}
use ara.StopVisit
use ara.StopVisit.{stop_visit_entity}
use ara.StopVisits.{
  StopVisits, empty, save, find_by_stop_area_id, find_following_by_stop_area_id, is_following,
}
use ara.Store.Links.{Lists, listed}
use ara.StopVisits.Searches.{
  IsWhole, empty-IsWhole, save-IsWhole, find_by_stop_area_id-Lists,
  find_following_by_stop_area_id-Lists,
}
use ara.Examples.Samples.{quay, single-AreIdentifiers}

abbrev visit : StopVisit
visit = record StopVisit.new {
  id = "visit1";
  stop_area_id = "area1";
  object_ids = (quay.kind, quay) ∷ [];
  schedules = ("actual", record { kind = "actual"; departure_time = 40; arrival_time = 30 }) ∷ [];
}

abbrev visits : StopVisits
visits = (save (empty true) "unused" visit).0

save-IsWhole_example : IsWhole visits
save-IsWhole_example =
    save-IsWhole (empty true) "unused" visit (single-AreIdentifiers quay) (empty-IsWhole true)

visits-IsWhole : IsWhole visits
visits-IsWhole =
    save-IsWhole (empty true) "unused" visit (single-AreIdentifiers quay) (empty-IsWhole true)

find_by_stop_area_id-Lists_example :
    Lists
      (λ id. listed (λ sv. sv.stop_area_id) (λ _. true) "area1" (get visits.store.by_identifier id))
      (find_by_stop_area_id visits "area1")
find_by_stop_area_id-Lists_example = find_by_stop_area_id-Lists visits "area1" visits-IsWhole

find_following_by_stop_area_id-Lists_example :
    Lists
      (λ id.
        listed
          (λ sv. sv.stop_area_id)
          (is_following 20)
          "area1"
          (get visits.store.by_identifier id))
      (find_following_by_stop_area_id (λ l. l) 20 visits "area1")
find_following_by_stop_area_id-Lists_example =
    find_following_by_stop_area_id-Lists (λ l. l) 20 visits "area1" (λ l id. refl) visits-IsWhole
