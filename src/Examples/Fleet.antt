-- ===== src/Examples/Fleet.antt =====
-- A model with a stop area, a line and a vehicle journey, for the tests of the updates.
use ara.Prelude.{◌≡◌, refl, [], ◌∷◌, arith, string_dec, string_key}
use ara.GoMap.{get, set, delete}
use ara.ObjectId.{ObjectId, new, object_id_key}
use ara.Store
use ara.Line.{Line}
use ara.Line
use ara.VehicleJourneys.{VehicleJourney}
use ara.VehicleJourneys
use ara.StopAreas
use ara.StopAreas.Ascendants.{find_ascendants_total}
use ara.Model
use ara.Model.{MemoryModel}
use ara.TransactionalModel
use ara.TransactionalModel.{TransactionalModel, commit_model}
use ara.TransactionalModel.Soundness.{
  HasIdentifiers, IsSoundModel, empty-IsSoundModel, commit_model-IsSoundModel,
}
use ara.Updates.Soundness.{EndsWithin}
use ara.Examples.Samples.{quay, stop, single-AreIdentifiers}

abbrev pub tram : ObjectId
tram = new "internal" "tram-3"

abbrev pub journey : ObjectId
journey = new "internal" "journey-12"

abbrev pub a_line : Line
a_line = record Line.new { id = "l1"; object_ids = ("internal", tram) ∷ [] }

abbrev pub a_journey : VehicleJourney
a_journey = record VehicleJourneys.new {
  id = "vj1";
  line_id = "l1";
  object_ids = ("internal", journey) ∷ [];
}

abbrev pub loading : TransactionalModel
loading = record TransactionalModel.begin {
  stop_areas = record { saved = ("sa1", stop "sa1" quay) ∷ []; deleted = [] };
  lines = record { saved = ("l1", a_line) ∷ []; deleted = [] };
  vehicle_journeys = record { saved = ("vj1", a_journey) ∷ []; deleted = [] };
}

abbrev pub loaded : MemoryModel
loaded = commit_model loading Model.empty

loading-HasIdentifiers : HasIdentifiers loading
loading-HasIdentifiers = record {
  stop_areas = (single-AreIdentifiers quay, tt);
  stop_visits = tt;
  vehicle_journeys = (single-AreIdentifiers journey, tt);
  lines = (single-AreIdentifiers tram, tt);
  vehicles = tt;
}

commit_model-IsSoundModel_example : IsSoundModel loaded
commit_model-IsSoundModel_example =
    commit_model-IsSoundModel loading Model.empty loading-HasIdentifiers empty-IsSoundModel

pub loaded-IsSoundModel : IsSoundModel loaded
loaded-IsSoundModel =
    commit_model-IsSoundModel loading Model.empty loading-HasIdentifiers empty-IsSoundModel

pub loaded_areas : loaded.stop_areas.store.by_identifier ≡ ("sa1", stop "sa1" quay) ∷ []
unfolding commit_model TransactionalModel.commit_stop_areas TransactionalModel.commit_to
    TransactionalModel.each StopAreas.keep Store.keep set delete string_dec
loaded_areas = refl

pub loaded-EndsWithin : EndsWithin 1 loaded
unfolding get string_dec
loaded-EndsWithin id = rw loaded_areas (
    find_ascendants_total 1 (("sa1", stop "sa1" quay) ∷ []) id (λ _. 0)
      (λ i sa e. elim (string_dec "sa1" i) [ yes q ↦ ground arith | no n ↦ ground arith ])
      (omega arith))
