-- ===== src/Index/Consistency.antt =====
-- model/index.go: the two maps describe one assignment of attributes to models, after any calls.
use ara.Prelude.{
  ℕ, ◌≡◌, refl, Option, none, some, List, [], ◌∷◌, ◌++◌, ite, arith, string_dec, string_key,
}
use ara.GoMap.{Map, get, get-set, get-delete}
use ara.Index.{
  ModelId, Index, empty, slice, index, detach, attach, remove, remove_known, remove_from_indexable,
}
use ara.Index.Slots.{
  count, count-append, occurrences, IsTight, set-IsTight, occurrences-remove_from_indexable,
  remove_from_indexable-IsTight,
}

-- 1 where the model is assigned to the attribute, and 0 elsewhere
abbrev pub assigned : Option ModelId → ModelId → ℕ
assigned none indexable = 0
assigned (some current) indexable = ite (string_dec current indexable) 1 0

pub record IsConsistent (ix : Index) : Type 0 where
  pub once :
      (indexable id : ModelId)
      → occurrences ix.by_indexable indexable id ≡ assigned (get ix.by_identifier id) indexable
  pub tight : IsTight ix.by_indexable

pub empty-IsConsistent : IsConsistent empty
unfolding get count
empty-IsConsistent = record { once = λ i j. refl; tight = λ i e. cc }

remove_known-IsConsistent :
    (ix : Index) (id : ModelId) (current : Option ModelId)
    → get ix.by_identifier id ≡ current
    → IsConsistent ix
    → IsConsistent (remove_known ix id current)
unfolding remove_known
remove_known-IsConsistent ix id none e c = c
remove_known-IsConsistent ix id (some i) e c = record {
  once = λ k j. ground (
    arith,
    occurrences-remove_from_indexable ix.by_indexable i id k j,
    get-delete ix.by_identifier id j,
    c.once k j,
  );
  tight = remove_from_indexable-IsTight ix.by_indexable i id c.tight;
}

-- Delete keeps the two maps consistent.
pub remove-IsConsistent :
    (ix : Index) (id : ModelId) → IsConsistent ix → IsConsistent (remove ix id)
unfolding remove
remove-IsConsistent ix id c = remove_known-IsConsistent ix id (get ix.by_identifier id) refl c

attach-IsConsistent :
    (ix : Index) (id indexable : ModelId) (by : Map ModelId (List ModelId))
    → IsTight by
    → ((k j : ModelId)
        → occurrences by k j ≡ ite (string_dec id j) 0 (occurrences ix.by_indexable k j))
    → IsConsistent ix
    → IsConsistent (attach ix id indexable (some by))
unfolding attach
attach-IsConsistent ix id indexable by t h c = record {
  once = λ k j. ground (
    arith,
    get-set by indexable (slice (get by indexable) ++ id ∷ []) k,
    get-set ix.by_identifier id indexable j,
    count-append j (slice (get by indexable)) id,
    h k j,
    c.once k j,
  );
  tight = set-IsTight by indexable id t;
}

detach_cases :
    (ix : Index) (id indexable : ModelId) (current : Option ModelId)
    → get ix.by_identifier id ≡ current
    → IsConsistent ix
    → IsConsistent (attach ix id indexable (detach ix id indexable current))
unfolding detach
detach_cases ix id indexable none e c =
    attach-IsConsistent ix id indexable ix.by_indexable c.tight (λ k j. ground (arith, c.once k j))
      c
detach_cases ix id indexable (some i) e c =
    elim (string_dec i indexable)
      as (λ d.
        IsConsistent (
          attach ix id indexable
            (ite d none (some (remove_from_indexable ix.by_indexable i id))))) [
              | yes p ↦ unfold attach in c
              | no n ↦
                  attach-IsConsistent ix id indexable (remove_from_indexable ix.by_indexable i id)
                    (remove_from_indexable-IsTight ix.by_indexable i id c.tight)
                    (λ k j. ground (
                      arith,
                      occurrences-remove_from_indexable ix.by_indexable i id k j,
                      c.once k j,
                    ))
                    c
            ]

-- Index keeps the two maps consistent, whether the model is new, moves, or stays.
pub index-IsConsistent :
    (ix : Index) (id indexable : ModelId) → IsConsistent ix → IsConsistent (index ix id indexable)
unfolding index
index-IsConsistent ix id indexable c = detach_cases ix id indexable (get ix.by_identifier id) refl c
