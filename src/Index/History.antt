-- ===== src/Index/History.antt =====
-- Histories of calls of model/index.go against its contract: each model has one attribute, the one
-- with which it was last indexed.
use mathlib.Core.Path.{fun_ext}
use ara.Prelude.{
  ◌≢◌, ◌≡◌, refl, ap, ◌∙◌, Option, none, some, List, [], ◌∷◌, ite, arith, string_dec, string_key,
}
use ara.GoMap.{get, get-set, get-delete, get-[]}
use ara.Index.{ModelId, Index, empty, slice, index, detach, attach, find, remove, remove_known}
use ara.Index.Slots.{count}
use ara.Index.Consistency.{
  assigned, IsConsistent, empty-IsConsistent, index-IsConsistent, remove-IsConsistent,
}

pub data Call : Type 0 where
  indexes : ModelId → ModelId → Call
  removes : ModelId → Call

unfoldable pub call : Index → Call → Index
call ix (indexes id indexable) = index ix id indexable
call ix (removes id) = remove ix id

unfoldable pub run : Index → List Call → Index
run ix [] = ix
run ix (c ∷ cs) = run (call ix c) cs

-- The contract: the attribute of each model.
abbrev pub Assignment : Type 0
Assignment = ModelId → Option ModelId

abbrev contract : Assignment → Call → Assignment
contract a (indexes id indexable) j = ite (string_dec id j) (some indexable) (a j)
contract a (removes id) j = ite (string_dec id j) none (a j)

abbrev pub contracts : Assignment → List Call → Assignment
contracts a [] = a
contracts a (c ∷ cs) = contracts (contract a c) cs

abbrev assignment : Index → Assignment
assignment ix id = get ix.by_identifier id

attach-assignment :
    (ix : Index) (id indexable : ModelId) (current : Option ModelId) (j : ModelId)
    → get ix.by_identifier id ≡ current
    → assignment (attach ix id indexable (detach ix id indexable current)) j
      ≡ ite (string_dec id j) (some indexable) (assignment ix j)
unfolding attach detach
attach-assignment ix id indexable none j e = ground (arith, get-set ix.by_identifier id indexable j)
attach-assignment ix id indexable (some i) j e =
    ground (arith, get-set ix.by_identifier id indexable j)

removed-assignment :
    (ix : Index) (id : ModelId) (current : Option ModelId) (j : ModelId)
    → get ix.by_identifier id ≡ current
    → assignment (remove_known ix id current) j ≡ ite (string_dec id j) none (assignment ix j)
unfolding remove_known
removed-assignment ix id none j e = ground arith
removed-assignment ix id (some i) j e = ground (arith, get-delete ix.by_identifier id j)

pub by_identifier-index :
    (ix : Index) (id indexable j : ModelId)
    → get (index ix id indexable).by_identifier j
      ≡ ite (string_dec id j) (some indexable) (get ix.by_identifier j)
unfolding index
by_identifier-index ix id indexable j = attach-assignment ix id indexable _ j refl

pub by_identifier-remove :
    (ix : Index) (id j : ModelId)
    → get (remove ix id).by_identifier j ≡ ite (string_dec id j) none (get ix.by_identifier j)
unfolding remove
by_identifier-remove ix id j = removed-assignment ix id _ j refl

call_refines : (ix : Index) (c : Call) → assignment (call ix c) ≡ contract (assignment ix) c
unfolding call
call_refines ix (indexes id indexable) = fun_ext (λ j. by_identifier-index ix id indexable j)
call_refines ix (removes id) = fun_ext (λ j. by_identifier-remove ix id j)

run_refines : (ix : Index) (cs : List Call) → assignment (run ix cs) ≡ contracts (assignment ix) cs
unfolding run
run_refines ix [] = refl
run_refines ix (c ∷ cs) = run_refines (call ix c) cs ∙ ap (λ a. contracts a cs) (call_refines ix c)

run-IsConsistent : (ix : Index) (cs : List Call) → IsConsistent ix → IsConsistent (run ix cs)
unfolding run call
run-IsConsistent ix [] c = c
run-IsConsistent ix (indexes id i ∷ cs) c =
    run-IsConsistent (index ix id i) cs (index-IsConsistent ix id i c)
run-IsConsistent ix (removes id ∷ cs) c =
    run-IsConsistent (remove ix id) cs (remove-IsConsistent ix id c)

empty-assignment : assignment empty ≡ λ j. none
empty-assignment = fun_ext (λ j. get-[] j)

-- After any sequence of Index and Delete calls on a new index, the list that Find gives at an
-- attribute holds a model once if that attribute is the one with which the model was last indexed
-- and it was not deleted since, and otherwise not at all.
pub find_exact :
    (cs : List Call) (indexable id : ModelId)
    → count id (slice (find (run empty cs) indexable))
      ≡ assigned (contracts (λ j. none) cs id) indexable
unfolding find
find_exact cs indexable id =
    (run-IsConsistent empty cs empty-IsConsistent).once indexable id
    ∙ ap (λ a. assigned (a id) indexable)
        (run_refines empty cs ∙ ap (λ a. contracts a cs) empty-assignment)

-- And Find never reports an attribute that no model has.
pub find-ne-[] : (cs : List Call) (indexable : ModelId) → find (run empty cs) indexable ≢ some []
unfolding find
find-ne-[] cs indexable = (run-IsConsistent empty cs empty-IsConsistent).tight indexable
