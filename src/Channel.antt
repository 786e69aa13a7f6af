-- ===== src/Channel.antt =====
-- A buffered channel of Go that is only sent to in a select with a default, as broadcastSMEvent and
-- broadcastGMEvent of model/model_interface.go do: what does not fit is dropped.
use ara.Prelude.{ℕ, zero, suc, ◌+◌, ◌≤◌, ◌≡◌, List, [], ◌∷◌, ◌++◌, ite, dec_lt, arith}

abbrev pub length {ℓ} : {A : Type ℓ} → List A → ℕ
length [] = 0
length (x ∷ xs) = suc (length xs)

abbrev pub take {ℓ} : {A : Type ℓ} → ℕ → List A → List A
take zero xs = []
take (suc n) [] = []
take (suc n) (x ∷ xs) = x ∷ take n xs

-- `waiting` is what the reader has yet to receive, oldest first. A nil channel has no capacity.
pub record Channel (E : Type 0) : Type 0 where
  pub capacity : ℕ
  pub waiting : List E

-- select { case channel <- event: default: }, while no reader waits
unfoldable pub broadcast_event : {E : Type 0} → Channel E → E → Channel E
broadcast_event c event =
    ite (dec_lt (length c.waiting) c.capacity) (record c { waiting = c.waiting ++ event ∷ [] }) c

-- a run of calls
unfoldable pub broadcast_all : {E : Type 0} → Channel E → List E → Channel E
broadcast_all c [] = c
broadcast_all c (event ∷ events) = broadcast_all (broadcast_event c event) events

length-append : {E : Type 0} (xs ys : List E) → length (xs ++ ys) ≡ length xs + length ys
length-append [] ys = ground arith
length-append (x ∷ xs) ys = ground (arith, length-append xs ys)

-- A channel that holds no more than its capacity holds no more after any run of calls.
pub broadcast_all-bounded :
    {E : Type 0} (c : Channel E) (events : List E)
    → length c.waiting ≤ c.capacity
    → length (broadcast_all c events).waiting ≤ (broadcast_all c events).capacity
unfolding broadcast_all broadcast_event
broadcast_all-bounded c [] h = h
broadcast_all-bounded c (event ∷ events) h =
    broadcast_all-bounded (broadcast_event c event) events
      (ground (arith, length-append c.waiting (event ∷ [])))
