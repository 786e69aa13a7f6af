-- ===== src/CollectManager/Choice.antt =====
-- Which partner UpdateStopArea of core/collect_manager.go asks.
use ara.Prelude.{
  ℕ, String, ◌≡◌, ◌≢◌, ◌↔◌, ◌⊎◌, refl, Bool, true, false, Option, none, some, List, [], ◌∷◌, arith,
  Bool-cases, Option-cases, inl, inr, string_dec, string_key,
}
use ara.GoMap.{Map, get, IsDistinct}
use ara.Credentials.{PartnerId}
use ara.ObjectId.{ObjectId}
use ara.ObjectIdIndex.{ModelId}
use ara.StopArea.{StopArea}
use ara.StopAreas
use ara.Model.{MemoryModel}
use ara.PartnerSettings.{setting, collect_subscriptions_persistent}
use ara.Partner.{
  Partner, up, stop_monitoring_subscription_collector, stop_monitoring_request_collector,
  partner_can_collect,
}
use ara.Partners.{Partners, values, find_all, find_all_by_collect_priority, ranks_above}
use ara.CollectManager.{
  Through, through_of, is_some, kind_of, line_values, serves_stop_area, first_serving, asked,
  update_stop_area,
}

abbrev pub IsIn : {A : Type 0} → A → List A → Type 0
IsIn x [] = ⊥
IsIn x (y ∷ l) = (x ≡ y) ⊎ IsIn x l

module _ {C S : Type 0} (parse_bool : String → Bool) (atoi : String → ℕ) where
  -- The partner has a collector, is up or keeps its subscriptions and has a subscription collector,
  -- and can collect the stop area by its identifier of the kind of the partner.
  pub record Serves (model : MemoryModel) (sa : StopArea) (partner : Partner C S) : Type 0 where
    pub connector_lem :
        (stop_monitoring_subscription_collector partner ≢ none)
        ⊎ (stop_monitoring_request_collector partner ≢ none)
    pub status_lem :
        (partner.status.operationnal_status ≡ up)
        ⊎ ((parse_bool (setting partner.settings collect_subscriptions_persistent) ≡ true)
            × (stop_monitoring_subscription_collector partner ≢ none))
    pub o : ObjectId
    pub identified_lem : get sa.object_ids (kind_of parse_bool partner) ≡ some o
    pub collects_lem :
        partner_can_collect partner o.value
          (line_values model.lines (kind_of parse_bool partner) sa.line_ids)
        ≡ true

  test_passed-Serves :
      (model : MemoryModel) (sa : StopArea) (partner : Partner C S)
      → serves_stop_area parse_bool model sa partner ≡ true
      → Serves model sa partner
  unfolding serves_stop_area
  test_passed-Serves model sa partner h =
      elim (Option-cases (get sa.object_ids (kind_of parse_bool partner))) [
        | inl e ↦ absurd (ground arith)
        | inr (o, e) ↦ record {
          connector_lem = ground arith;
          status_lem = ground arith;
          o = o;
          identified_lem = e;
          collects_lem = ground arith;
        }
      ]

  test_of_Serves :
      (model : MemoryModel) (sa : StopArea) (partner : Partner C S)
      → Serves model sa partner
      → serves_stop_area parse_bool model sa partner ≡ true
  unfolding serves_stop_area
  test_of_Serves model sa partner x =
      ground (arith, x.connector_lem, x.status_lem, x.identified_lem, x.collects_lem)

  -- no partner ranks above one that stands before it
  abbrev pub IsOrdered : List (Partner C S) → Type 0
  IsOrdered [] = Unit
  IsOrdered (p ∷ l) = ((q : Partner C S) → IsIn q l → ranks_above atoi q p ≡ false) × IsOrdered l

  -- the same partners, in the order of ByPriority
  pub record IsSortOf (l sorted : List (Partner C S)) : Type 0 where
    pub same_lem : (p : Partner C S) → IsIn p sorted ↔ IsIn p l
    pub ordered_lem : IsOrdered sorted

  irreflexive : (p : Partner C S) → ranks_above atoi p p ≡ false
  unfolding ranks_above
  irreflexive p = ground arith

  abbrev IsBest : (Partner C S → Bool) → List (Partner C S) → Partner C S → Type 0
  IsBest serves l p =
      IsIn p l
      × (serves p ≡ true)
      × ((q : Partner C S) → IsIn q l → serves q ≡ true → ranks_above atoi q p ≡ false)

  first_serving-IsBest :
      (serves : Partner C S → Bool) (l : List (Partner C S)) (p : Partner C S)
      → IsOrdered l
      → first_serving parse_bool serves l ≡ some p
      → IsBest serves l p
  unfolding first_serving
  first_serving-IsBest serves [] p d e = absurd (ground arith)
  first_serving-IsBest serves (x ∷ l) p d e = elim (Bool-cases (serves x)) [
    | inl t ↦
        let s : x ≡ p = ground arith in
        rw⁻¹ s (
          inl refl,
          t,
          λ q i h. elim i [ inl same ↦ rw same (irreflexive x) | inr later ↦ d.0 q later ],
        )
    | inr f ↦
        let (i, t, best) = first_serving-IsBest serves l p d.1 (ground arith) in
        (
          inr i,
          t,
          λ q j h. elim j [ inl same ↦ absurd (ground arith) | inr later ↦ best q later h ],
        )
  ]

  first_serving-none :
      (serves : Partner C S → Bool) (l : List (Partner C S)) (q : Partner C S)
      → first_serving parse_bool serves l ≡ none
      → IsIn q l
      → serves q ≡ false
  unfolding first_serving
  first_serving-none serves [] q e i = absurd i
  first_serving-none serves (x ∷ l) q e i = elim (Bool-cases (serves x)) [
    | inl t ↦ absurd (ground arith)
    | inr f ↦ elim i [
      | inl same ↦ rw same f
      | inr later ↦ first_serving-none serves l q (ground arith) later
    ]
  ]

  values-get :
      (m : Map PartnerId (Partner C S)) (id : PartnerId) (p : Partner C S)
      → get m id ≡ some p
      → IsIn p (values m)
  unfolding values get
  values-get [] id p e = absurd (ground arith)
  values-get ((k, x) ∷ m) id p e = elim (string_dec k id) [
    | yes s ↦ inl (ground arith)
    | no n ↦ inr (values-get m id p (ground arith))
  ]

  get-values :
      (m : Map PartnerId (Partner C S)) (p : Partner C S)
      → IsDistinct m
      → IsIn p (values m)
      → (id : PartnerId) × (get m id ≡ some p)
  unfolding values get
  get-values [] p d i = absurd i
  get-values ((k, x) ∷ m) p d (inl same) = (k, ground arith)
  get-values ((k, x) ∷ m) p d (inr later) =
      let (id, e) = get-values m p d.1 later in (id, ground (arith, d.0))

  -- what the answer says of the partners of the manager
  abbrev pub IsChoice :
      Partners C S → MemoryModel → StopArea → Option (Partner C S × Through) → Type 0
  IsChoice manager model sa none =
      (id : PartnerId) (q : Partner C S) → get manager.by_id id ≡ some q → ¬ Serves model sa q
  IsChoice manager model sa (some (p, through)) =
      ((id : PartnerId) × (get manager.by_id id ≡ some p))
      × Serves model sa p
      × (through ≡ through_of (is_some (stop_monitoring_subscription_collector p)))
      × ((id : PartnerId) (q : Partner C S)
          → get manager.by_id id ≡ some q
          → Serves model sa q
          → ranks_above atoi q p ≡ false)

  asked-IsChoice :
      (manager : Partners C S) (model : MemoryModel) (sa : StopArea) (sorted : List (Partner C S))
      (o : Option (Partner C S))
      → IsDistinct manager.by_id
      → IsSortOf (find_all manager) sorted
      → first_serving parse_bool (serves_stop_area parse_bool model sa) sorted ≡ o
      → IsChoice manager model sa (asked parse_bool stop_monitoring_subscription_collector o)
  unfolding find_all
  asked-IsChoice manager model sa sorted none d s e = λ id q g x.
      let refuses =
        first_serving-none (serves_stop_area parse_bool model sa) sorted q e
          ((s.same_lem q).1 (values-get manager.by_id id q g)) in
      absurd (ground (arith, test_of_Serves model sa q x))
  asked-IsChoice manager model sa sorted (some p) d s e =
      let (i, t, best) =
        first_serving-IsBest (serves_stop_area parse_bool model sa) sorted p s.ordered_lem e in
      (
        get-values manager.by_id p d ((s.same_lem p).0 i),
        test_passed-Serves model sa p t,
        refl,
        λ id q g x.
            best q ((s.same_lem q).1 (values-get manager.by_id id q g))
              (test_of_Serves model sa q x),
      )

  -- Where package sort puts the partners of the manager in the order of ByPriority,
  -- UpdateStopArea, for a stop area of the model, asks a partner of the manager that serves it (it
  -- has a collector, is up or has persistent subscriptions and a subscription collector, and can
  -- collect the stop area by its identifier), through its subscription collector if it has one,
  -- and no partner that serves it has a higher collect priority; it asks nobody only if no partner
  -- of the manager serves it.
  pub update_stop_area-IsChoice :
      (sort : List (Partner C S) → List (Partner C S)) (manager : Partners C S)
      (model : MemoryModel) (id : ModelId) (sa : StopArea)
      → IsDistinct manager.by_id
      → IsSortOf (find_all manager) (sort (find_all manager))
      → StopAreas.find model.stop_areas id ≡ some sa
      → IsChoice manager model sa
          (update_stop_area parse_bool (find_all_by_collect_priority sort manager) model id)
  unfolding update_stop_area find_all_by_collect_priority
  update_stop_area-IsChoice sort manager model id sa d s f = rw f (
      asked-IsChoice manager model sa (sort (find_all manager))
        (first_serving parse_bool (serves_stop_area parse_bool model sa) (sort (find_all manager)))
        d s refl)
