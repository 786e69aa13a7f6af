-- ===== src/CollectSettings.antt =====
-- core/collect_settings.go, and CanCollect of core/partner.go: what a partner may be asked for. A Go
-- map used as a set is the list of its keys.
use ara.Credentials.{split, trim_space}
use ara.Prelude.{
  Bool-cases, inl, inr, String, ◌≡◌, ◌↔◌, ◌⊎◌, refl, Bool, true, false, not, ◌&&◌, ◌||◌, List, [],
  ◌∷◌, ite, if◌then◌else◌, string_dec, arith,
}

-- collection.include, and the test of a key in a set
unfoldable pub include : List String → String → Bool
include [] s = false
include (x ∷ c) s = let rest = include c s in ite (string_dec x s) true rest

-- collection.isInMap
unfoldable pub is_in_map : List String → List String → Bool
unfolding include
is_in_map [] m = false
is_in_map (x ∷ c) m = let rest = is_in_map c m in if include m x then true else rest

pub record CollectSettings : Type 0 where
  pub use_discovered : Bool
  pub included_stop_areas : List String
  pub included_lines : List String
  pub excluded_stop_areas : List String

abbrev pub is_nil : List String → Bool
is_nil [] = true
is_nil (x ∷ c) = false

-- Empty
unfoldable pub is_empty : CollectSettings → Bool
is_empty cs =
    is_nil cs.included_stop_areas
    && is_nil cs.included_lines
    && is_nil cs.excluded_stop_areas
    && not cs.use_discovered

-- IncludeStop, ExcludeStop
abbrev pub include_stop : CollectSettings → String → Bool
include_stop cs s = include cs.included_stop_areas s

abbrev pub exclude_stop : CollectSettings → String → Bool
exclude_stop cs s = include cs.excluded_stop_areas s

-- IncludeLine
unfoldable pub include_line : CollectSettings → String → Bool
unfolding include
include_line cs s =
    if is_nil cs.included_lines then false else if include cs.included_lines s then true else false

-- CanCollectLines
unfoldable pub can_collect_lines : CollectSettings → List String → Bool
unfolding is_in_map
can_collect_lines cs line_ids =
    if is_nil cs.included_lines then false else is_in_map cs.included_lines line_ids

-- Partner.CanCollect, on the stop areas that were discovered for the partner
unfoldable pub can_collect : CollectSettings → List String → String → List String → Bool
unfolding is_empty can_collect_lines
can_collect cs discovered stop_id line_ids =
    if is_empty cs
    then true
    else if exclude_stop cs stop_id
    then false
    else include_stop cs stop_id || can_collect_lines cs line_ids || include discovered stop_id

-- trimedSlice of core/partner_settings.go
unfoldable pub trim_all : List String → List String
trim_all [] = []
trim_all (x ∷ c) = trim_space x ∷ trim_all c

unfoldable pub trimmed_slice : String → List String
unfolding trim_all
trimmed_slice s = ite (string_dec s "") [] (trim_all (split s))

-- setCollectSettings, on the four settings that it reads
unfoldable pub collect_settings : String → String → String → String → CollectSettings
unfolding trimmed_slice
collect_settings discovered included_areas included_lines excluded_areas = record {
  use_discovered = ite (string_dec discovered "") false true;
  included_stop_areas = trimmed_slice included_areas;
  included_lines = trimmed_slice included_lines;
  excluded_stop_areas = trimmed_slice excluded_areas;
}

-- an element of both lists
abbrev pub Meets : List String → List String → Type 0
Meets a b = (s : String) × (include a s ≡ true) × (include b s ≡ true)

include_head : (x : String) (c : List String) → include (x ∷ c) x ≡ true
unfolding include
include_head x c = ground arith

include_tail : (x s : String) (c : List String) → include c s ≡ true → include (x ∷ c) s ≡ true
unfolding include
include_tail x s c h = ground arith

is_in_map→Meets : (c m : List String) → is_in_map c m ≡ true → Meets c m
unfolding is_in_map
is_in_map→Meets [] m h = cc
is_in_map→Meets (x ∷ c) m h = elim (Bool-cases (include m x)) [
  | inl t ↦ (x, include_head x c, t)
  | inr f ↦ let (s, p, q) = is_in_map→Meets c m (ground arith) in (s, include_tail x s c p, q)
]

Meets→is_in_map :
    (c m : List String) (s : String)
    → include c s ≡ true
    → include m s ≡ true
    → is_in_map c m ≡ true
unfolding is_in_map include
Meets→is_in_map [] m s p q = cc
Meets→is_in_map (x ∷ c) m s p q = ground (arith, Meets→is_in_map c m s)

lines_lem : (c m : List String) → (if is_nil c then false else is_in_map c m) ≡ is_in_map c m
unfolding is_in_map
lines_lem [] m = refl
lines_lem (x ∷ c) m = refl

can_collect_lines_lem :
    (cs : CollectSettings) (line_ids : List String)
    → can_collect_lines cs line_ids ≡ is_in_map cs.included_lines line_ids
unfolding can_collect_lines
can_collect_lines_lem cs line_ids = lines_lem cs.included_lines line_ids

-- CanCollect is true exactly if the settings are empty, or the stop area is not excluded and one
-- of these holds: it is included, one of its lines is included, or it was discovered for the
-- partner.
pub can_collect_iff :
    (cs : CollectSettings) (discovered : List String) (stop_id : String) (line_ids : List String)
    → (can_collect cs discovered stop_id line_ids ≡ true) ↔ (
        (is_empty cs ≡ true)
        ⊎ ((exclude_stop cs stop_id ≡ false)
            × ((include_stop cs stop_id ≡ true)
                ⊎ (Meets cs.included_lines line_ids ⊎ (include discovered stop_id ≡ true)))))
unfolding can_collect
can_collect_iff cs discovered stop_id line_ids = (
  λ h. elim (Bool-cases (is_empty cs)) [
    | inl e ↦ inl e
    | inr n ↦ inr (
      ground arith,
      elim (Bool-cases (include_stop cs stop_id)) [
        | inl t ↦ inl t
        | inr f ↦ inr (elim (Bool-cases (is_in_map cs.included_lines line_ids)) [
          | inl t ↦ inl (is_in_map→Meets cs.included_lines line_ids t)
          | inr g ↦ inr (ground (arith, can_collect_lines_lem cs line_ids))
        ])
      ],
    )
  ],
  λ h. elim h [
    | inl e ↦ ground arith
    | inr (n, inl t) ↦ ground arith
    | inr (n, inr (inl (s, p, q))) ↦
        ground (
          arith,
          can_collect_lines_lem cs line_ids,
          Meets→is_in_map cs.included_lines line_ids s p q,
        )
    | inr (n, inr (inr d)) ↦ ground arith
  ],
)
