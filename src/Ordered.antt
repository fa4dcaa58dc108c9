-- ===== src/Ordered.antt =====
-- bertha/src/tagger.rs: `OrderedCn`, which numbers the segments to each address and returns the
-- segments from each address in the order of their numbers. Addresses are numbers, `BinaryHeap` is a
-- list in the order in which it pops, and what the inner connection receives is given in batches.
pub mod Delivery
pub mod Receive
pub mod EndToEnd
pub mod RoundTrip
use tbm.Prelude.{
  ℕ, zero, suc, ◌+◌, ◌%◌, ◌==◌, ltb, leb, Bool, true, false, ◌||◌, List, [], ◌∷◌, ◌++◌, Option,
  none, some, if◌then◌else◌, get, insert, cons_some, Report, Result, ok, err,
}

abbrev pub u32 : ℕ → ℕ
u32 n = n % 4294967296

-- `OrderedState<(A, D)>`
pub record OrderedState (D : Type 0) : Type 0 where
  pub snd_nxt : ℕ
  pub expected_recv : ℕ
  pub recvd : List (ℕ × (ℕ × D))

-- A received segment: its source, its number and its data.
abbrev pub Segment : Type 0 → Type 0
Segment D = ℕ × (ℕ × D)

abbrev pub States : Type 0 → Type 0
States D = List (ℕ × OrderedState D)

-- `pop`: the first segment is the expected one, or the hole before it is past the threshold.
abbrev pub should_pop : Option ℕ → ℕ → ℕ → Bool
should_pop none expected seq = seq == expected
should_pop (some thresh) expected seq = seq == expected || ltb (u32 (expected + u32 thresh)) seq

module _ {D : Type 0} where
  abbrev pub new_state : OrderedState D
  new_state = record { snd_nxt = 0; expected_recv = 0; recvd = [] }

  -- `entry(addr).or_default()`
  abbrev pub or_default : Option (OrderedState D) → OrderedState D
  or_default none = new_state
  or_default (some st) = st

  -- `BinaryHeap::push`; `DataPair` compares by the number, the smallest first.
  unfoldable pub push : (ℕ × (ℕ × D)) → List (ℕ × (ℕ × D)) → List (ℕ × (ℕ × D))
  push e [] = e ∷ []
  push e (x ∷ xs) = if leb e.0 x.0 then e ∷ x ∷ xs else x ∷ push e xs

  -- The closure of `send`: the next number of the address.
  unfoldable pub tag : States D → ℕ → D → States D × Segment D
  tag m addr body =
      let st = or_default (get addr m) in
      (insert addr (record st { snd_nxt = u32 (st.snd_nxt + 1) }) m, (addr, (st.snd_nxt, body)))

  -- `send`, with what goes to the inner connection.
  unfoldable pub send : States D → List (ℕ × D) → States D × List (Segment D)
  unfolding tag
  send m [] = (m, [])
  send m ((addr, body) ∷ burst) =
      let (m', segment) = tag m addr body in
      let (m'', segments) = send m' burst in (m'', segment ∷ segments)

  abbrev pub pop_head :
      Option ℕ → OrderedState D → List (ℕ × (ℕ × D)) → Option (OrderedState D × (ℕ × D))
  pop_head thresh st [] = none
  pop_head thresh st ((seq, body) ∷ rest) =
      if should_pop thresh st.expected_recv seq
      then some (record st { expected_recv = u32 (seq + 1); recvd = rest }, body)
      else none

  -- One round of the `for` over the states: the segment that the state gives up, if any.
  unfoldable pub pop_ready : Option ℕ → OrderedState D → Option (OrderedState D × (ℕ × D))
  pop_ready thresh st = pop_head thresh st st.recvd

  abbrev pub or_later :
      ℕ
      → Option (OrderedState D × (ℕ × D))
      → Option (ℕ × OrderedState D × (ℕ × D))
      → Option (ℕ × OrderedState D × (ℕ × D))
  or_later a none later = later
  or_later a (some (st, body)) later = some (a, st, body)

  -- The `for` over the states: the first state that gives up a segment.
  unfoldable pub first_ready : Option ℕ → States D → Option (ℕ × OrderedState D × (ℕ × D))
  first_ready thresh [] = none
  first_ready thresh ((a, st) ∷ m) = or_later a (pop_ready thresh st) (first_ready thresh m)

  -- The `'peel` loop, for the slots that are left.
  unfoldable pub peel : Option ℕ → ℕ → States D → States D × List (ℕ × D)
  peel thresh zero m = (m, [])
  peel thresh (suc slots) m = elim (first_ready thresh m) [
    | none ↦ (m, [])
    | some (a, st, body) ↦ let (m', out) = peel thresh slots (insert a st m) in (m', body ∷ out)
  ]

  -- The chain of comparisons on a received segment: the state, and the segment if it is in order.
  unfoldable pub accept : OrderedState D → ℕ → ℕ → D → OrderedState D × Option (ℕ × D)
  accept st from seq body =
      if seq == st.expected_recv
      then (record st { expected_recv = u32 (st.expected_recv + 1) }, some (from, body))
      else if ltb st.expected_recv seq
      then (record st { recvd = push (seq, (from, body)) st.recvd }, none)
      else (st, none)

  -- The loop over what the inner connection received, into a buffer as long as the caller's, of which
  -- no slot is filled yet: an inner connection that stays within its buffer leaves a slot for each.
  unfoldable pub fill : States D → List (Segment D) → States D × List (ℕ × D)
  fill m [] = (m, [])
  fill m ((from, (seq, body)) ∷ msgs) =
      let (st, delivered) = accept (or_default (get from m)) from seq body in
      let (m', out) = fill (insert from st m) msgs in (m', cons_some delivered out)

-- The end of a `recv`: segments, an error of the inner connection, or a wait for another batch.
pub data Recv (D : Type 0) : Type 0 where
  delivered : States D → List (ℕ × D) → Recv D
  failed : States D → Report → Recv D
  waits : States D → Recv D

module _ {D : Type 0} where
  -- `if slot_idx > 0 { return ... }`
  abbrev pub if_any : States D → List (ℕ × D) → Recv D → Recv D
  if_any m [] later = later
  if_any m (o ∷ out) later = delivered m (o ∷ out)

  -- The outer loop, into `slots` slots, where the inner connection's next results are `batches`.
  unfoldable pub recv_loop : Option ℕ → ℕ → States D → List (Result (List (Segment D))) → Recv D
  recv_loop thresh slots m [] = let (m', out) = peel thresh slots m in if_any m' out (waits m')
  recv_loop thresh slots m (err e ∷ batches) =
      let (m', out) = peel thresh slots m in if_any m' out (failed m' e)
  recv_loop thresh slots m (ok msgs ∷ batches) =
      let (m', out) = peel thresh slots m in
      let (m'', filled) = fill m' msgs in
      let rest = recv_loop thresh slots m'' batches in if_any m' out (if_any m'' filled rest)

  -- `recv`; with no slot it returns at once.
  unfoldable pub recv : Option ℕ → ℕ → States D → List (Result (List (Segment D))) → Recv D
  unfolding recv_loop
  recv thresh zero m batches = delivered m []
  recv thresh (suc slots) m batches = recv_loop thresh (suc slots) m batches

  -- The states that a `recv` leaves, and what it has handed to the caller.
  abbrev pub states_of : Recv D → States D
  states_of (delivered m out) = m
  states_of (failed m e) = m
  states_of (waits m) = m

  abbrev pub handed : Recv D → List (ℕ × D)
  handed (delivered m out) = out
  handed (failed m e) = []
  handed (waits m) = []

  -- Calls of `recv`, one after another: the states at the end, and all that was handed over.
  unfoldable pub receive :
      Option ℕ → States D → List (ℕ × List (Result (List (Segment D)))) → States D × List (ℕ × D)
  receive thresh m [] = (m, [])
  receive thresh m ((slots, batches) ∷ calls) =
      let r = recv thresh slots m batches in
      let (m', out) = receive thresh (states_of r) calls in (m', handed r ++ out)
