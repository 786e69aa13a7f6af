-- ===== src/Examples/Guardians.antt =====
-- The guardians and the collect manager at concrete inputs.
use ara.Prelude.{
  List, inl, inr, ◌<◌, ◌≤◌, String, ◌≡◌, ◌≢◌, ◌↔◌, ◌⊎◌, refl, some, none, [], ◌∷◌, arith,
  string_dec, string_key, true, false, if◌then◌else◌, Bool, dec_lt,
}
use ara.GoMap.{get, set, delete, IsDistinct}
use ara.Schedules.{Time, zero_time}
use ara.StopArea.{StopArea}
use ara.StopAreas
use ara.StopVisit
use ara.StopVisit.{StopVisit}
use ara.Store.{found}
use ara.Model.{MemoryModel}
use ara.Partner
use ara.Partner.{Partner, PartnerStatus, up, unknown, down}
use ara.PartnerSettings
use ara.PartnersGuardian.{apply_status, is_restarted, is_down, is_persistent}
use ara.PartnersGuardian.Subscribed.{IsSettled, stays, find-apply_status, apply_status-settles}
use ara.Subscriptions.Terminated.{check_all}
use ara.Subscriptions.Terminated.Left
use ara.Subscriptions.Terminated.Left.{left, get-check_all_own}
use ara.CollectManager.{update_stop_area}
use ara.CollectManager.Choice.{IsSortOf, IsChoice, update_stop_area-IsChoice}
use ara.Partners
use ara.Partners.{Partners, find_all, find_all_by_collect_priority, ranks_above}
use ara.LastStates.{digits}
use ara.Credentials.{PartnerId}
use ara.ModelGuardian.{is_due, visit_stop_area}
use ara.ModelGuardian.Bounds.{IsPutOff, visit_stop_area-IsPutOff}
use ara.ModelGuardian.Simulator.{simulate, steps_left, simulate-decreases}
use ara.Examples.Samples.{quay, stop}
use ara.Examples.Fleet.{loaded, loaded-IsSoundModel}

abbrev partner : Partner Unit Unit
partner = record (Partner.new "partner1") {
  id = "p1";
  subscriptions =
      (
        "s1",
        record {
          id = "s1";
          kind = "StopMonitoringBroadcast";
          external_id = "ext";
          resources_by_object_id = [];
          subscription_options = [];
        },
      )
      ∷ [];
}

abbrev started : PartnerStatus
started = record {
  operationnal_status = up;
  service_started_at = record { instant = 7; reading = 0; location = 1 };
}

abbrev never : String → Bool
never s = false

partner-IsDistinct : IsDistinct partner.subscriptions
unfolding get
partner-IsDistinct = (refl, tt)

find-apply_status_example :
    (get (apply_status never started partner).partner.subscriptions "s1" ≡ (
      if is_restarted partner.status started
      then none
      else if is_down started
      then stays
          (is_persistent never partner PartnerSettings.collect_subscriptions_persistent)
          (is_persistent never partner PartnerSettings.broadcast_subscriptions_persistent)
          (get partner.subscriptions "s1")
      else get partner.subscriptions "s1"))
    × ((apply_status never started partner).partner.status.operationnal_status ≡ up)
    × ((is_restarted partner.status started ≡ true) ↔ (
        (started.operationnal_status ≡ up)
        × (started.service_started_at ≢ partner.status.service_started_at)))
    × ((is_down started ≡ true)
        ↔ ((started.operationnal_status ≡ unknown) ⊎ (started.operationnal_status ≡ down)))
find-apply_status_example = find-apply_status never started partner "s1" partner-IsDistinct

apply_status-settles_example : IsSettled never started (apply_status never started partner).partner
apply_status-settles_example = apply_status-settles never started partner refl

own_ids : Left.IsNamed partner.subscriptions
own_ids = (refl, tt)

get-check_all_own_example :
    get (check_all 5 partner.subscriptions partner.subscriptions) "s1"
    ≡ left 5 (get partner.subscriptions "s1")
get-check_all_own_example =
    get-check_all_own 5 partner.subscriptions "s1" partner-IsDistinct own_ids

kept_area : StopAreas.find loaded.stop_areas "sa1" ≡ some (stop "sa1" quay)
unfolding get string_dec delete StopAreas.find ara.Store.find ara.TransactionalModel.commit_model
    ara.TransactionalModel.commit_stop_areas ara.TransactionalModel.commit_to
    ara.TransactionalModel.each StopAreas.keep ara.Store.keep set ara.StopArea.copy ara.Origins.copy
    ara.Attributes.copy ara.References.copy ara.GoMap.Loops.fill
kept_area = refl

-- two partners that collect by request, of which the second has the higher priority
abbrev collecting : PartnerId → String → Partner Unit Unit
collecting id priority = record (Partner.new id) {
  id = id;
  status = started;
  settings = ("remote_objectid_kind", "internal") ∷ ("collect.priority", priority) ∷ [];
  connectors = ("siri-stop-monitoring-request-collector", tt) ∷ [];
}

abbrev second_best : Partner Unit Unit
second_best = collecting "p1" "2"

abbrev best : Partner Unit Unit
best = collecting "p2" "5"

abbrev both : Partners Unit Unit
both = record Partners.empty { by_id = ("p1", second_best) ∷ ("p2", best) ∷ [] }

insert : Partner Unit Unit → List (Partner Unit Unit) → List (Partner Unit Unit)
insert p [] = p ∷ []
insert p (q ∷ l) =
    let rest = insert p l in if ranks_above (digits 0) p q then p ∷ q ∷ l else q ∷ rest

sort : List (Partner Unit Unit) → List (Partner Unit Unit)
unfolding insert
sort [] = []
sort (p ∷ l) = insert p (sort l)

both-IsDistinct : IsDistinct both.by_id
unfolding get string_dec
both-IsDistinct = (refl, (refl, tt))

sorted_test : sort (find_all both) ≡ best ∷ second_best ∷ []
unfolding sort insert find_all ranks_above digits string_dec dec_lt get
sorted_test = refl

lower : ranks_above (digits 0) second_best best ≡ false
unfolding ranks_above digits string_dec dec_lt get
lower = refl

sort-IsSortOf : IsSortOf never (digits 0) (find_all both) (sort (find_all both))
unfolding find_all
sort-IsSortOf = rw sorted_test (record {
  same_lem = λ p. (
    λ i. elim i [ inl e ↦ inr (inl e) | inr j ↦ elim j [ inl e ↦ inl e | inr k ↦ absurd k ] ],
    λ i. elim i [ inl e ↦ inr (inl e) | inr j ↦ elim j [ inl e ↦ inl e | inr k ↦ absurd k ] ],
  );
  ordered_lem = (λ q i. elim i [ inl e ↦ rw e lower | inr k ↦ absurd k ], ((λ q k. absurd k), tt));
})

update_stop_area-IsChoice_example :
    IsChoice never
      (digits 0)
      both
      loaded
      (stop "sa1" quay)
      (update_stop_area never (find_all_by_collect_priority sort both) loaded "sa1")
update_stop_area-IsChoice_example =
    update_stop_area-IsChoice never (digits 0) sort both loaded "sa1" (stop "sa1" quay)
      both-IsDistinct sort-IsSortOf kept_area

due : is_due loaded 9 (record (stop "sa1" quay) { collected_always = true }) ≡ true
unfolding is_due get string_dec dec_lt
due = refl

visit_stop_area-IsPutOff_example :
    (after : MemoryModel) × (visit_stop_area 9 3 loaded
        (record (stop "sa1" quay) { collected_always = true })
      ≡ some after)
    × ((next : StopArea) × (StopAreas.find after.stop_areas "sa1" ≡ some next)
        × IsPutOff 9 (stop "sa1" quay) next)
    × ((j : String)
        → j ≢ "sa1"
        → StopAreas.find after.stop_areas j ≡ StopAreas.find loaded.stop_areas j)
visit_stop_area-IsPutOff_example =
    visit_stop_area-IsPutOff 9 3 loaded (record (stop "sa1" quay) { collected_always = true })
      (stop "sa1" quay) loaded-IsSoundModel.stop_areas.sound.named (omega arith) due kept_area

abbrev passing : StopVisit
passing = record StopVisit.new {
  id = "sv1";
  arrival_status = "onTime";
  departure_status = "onTime";
}

passing_arrives : (simulate 9 passing).1 ≡ true
unfolding simulate string_dec get dec_lt ara.Schedules.arrival_time_from_kind
passing_arrives = refl

simulate-decreases_example :
    (steps_left (simulate 9 passing).0 < steps_left passing) × (steps_left passing ≤ 2)
simulate-decreases_example = simulate-decreases 9 passing passing_arrives
