-- ===== src/Schedules/Merging.antt =====
-- Copy, Merge, Include and Eq of model/stop_visit_schedule.go.
use ara.Prelude.{
  inl, inr, Option-cases, sym, ap, ◌≡◌, refl, true, Option, none, some, arith, string_key, ◌↔◌,
}
use ara.GoMap.{get, get-[], IsDistinct}
use ara.GoMap.Loops.{filled, get-fill, every-get, every_of_get}
use ara.Schedules.{
  Schedule, Schedules, ScheduleType, duplicate, copy, merge, compare_schedules, include, same_entry,
  eq, aimed, expected, actual, empty,
}

same_schedule :
    (s t : Schedule)
    → s.kind ≡ t.kind
    → s.departure_time ≡ t.departure_time
    → s.arrival_time ≡ t.arrival_time
    → s ≡ t
same_schedule s t p q r i = record { kind = p i; departure_time = q i; arrival_time = r i }

compare-eq : (s : Schedule) (o : Option Schedule) → compare_schedules (some s) o ≡ true → o ≡ some s
unfolding compare_schedules
compare-eq s none h = cc
compare-eq s (some t) h =
    ap some (sym (same_schedule s t (ground arith) (ground arith) (ground arith)))

compare_self : (s : Schedule) → compare_schedules (some s) (some s) ≡ true
unfolding compare_schedules
compare_self s = ground arith

pub get-merge :
    (s t : Schedules) (kind : ScheduleType)
    → IsDistinct t
    → get (merge s t) kind ≡ filled duplicate kind (get t kind) (get s kind)
unfolding merge
get-merge s t kind d = get-fill duplicate s t kind d

-- Schedules include what was merged into them, where its types are distinct.
pub include-merge : (s t : Schedules) → IsDistinct t → include (merge s t) t ≡ true
unfolding include
include-merge s t d =
    every_of_get _ t d (λ k v g. ground (arith, get-merge s t k d, compare_self v))

-- Where the schedules include others with distinct types, merging those in changes no entry.
pub merge_included :
    (s t : Schedules) (kind : ScheduleType)
    → IsDistinct t
    → include s t ≡ true
    → get (merge s t) kind ≡ get s kind
unfolding include
merge_included s t kind d h = elim (Option-cases (get t kind)) [
  | inl e ↦ ground (arith, get-merge s t kind d)
  | inr (v, e) ↦ ground (
    arith,
    get-merge s t kind d,
    compare-eq v (get s kind)
        (every-get (λ k w. compare_schedules (some w) (get s k)) t kind v h e),
  )
]

pub get-copy : (s : Schedules) (kind : ScheduleType) → IsDistinct s → get (copy s) kind ≡ get s kind
unfolding copy
get-copy s kind d = ground (arith, get-fill duplicate empty s kind d, get-[] {V = Schedule} kind)

same_entry_self : (o : Option Schedule) → same_entry o o ≡ true
unfolding same_entry
same_entry_self none = refl
same_entry_self (some s) = compare_self s

-- A copy is equal to the original.
pub eq-copy : (s : Schedules) → IsDistinct s → eq (copy s) s ≡ true
unfolding eq
eq-copy s d = ground (
  arith,
  get-copy s aimed d,
  get-copy s expected d,
  get-copy s actual d,
  same_entry_self (get s aimed),
  same_entry_self (get s expected),
  same_entry_self (get s actual),
)

same_entry-eq : (a b : Option Schedule) → (same_entry a b ≡ true) ↔ (a ≡ b)
unfolding same_entry compare_schedules
same_entry-eq none none = (λ _. refl, λ _. refl)
same_entry-eq none (some t) = ground arith
same_entry-eq (some s) none = ground arith
same_entry-eq (some s) (some t) = (λ h. sym (compare-eq s (some t) h), λ e. ground arith)

-- Eq tells exactly whether the entries of the three known types are the same.
pub eq_iff :
    (s t : Schedules)
    → (eq s t ≡ true) ↔ (
        (get s aimed ≡ get t aimed)
        × (get s expected ≡ get t expected)
        × (get s actual ≡ get t actual))
unfolding eq
eq_iff s t = ground (
  arith,
  same_entry-eq (get s aimed) (get t aimed),
  same_entry-eq (get s expected) (get t expected),
  same_entry-eq (get s actual) (get t actual),
)
