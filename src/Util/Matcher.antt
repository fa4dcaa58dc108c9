-- ===== src/Util/Matcher.antt =====
-- `MsgIdMatcher`. The `oneshot` channels are tokens, and what has become of them is in the state.
use tbm.Prelude.{
  ℕ, zero, suc, ltb, List, [], ◌∷◌, Option, none, some, if◌then◌else◌, get, contains_key, insert,
  remove, set_contains, eyre, Report, ok, err, Outcome, returns, panics,
}

-- `inflight` has the senders and `sent` the receivers, by the id of the message. A token has a value when
-- its sender has sent, is in `dropped` when its sender has been replaced, and in `closed` when its
-- receiver is gone. `next` is the next token.
pub record Matcher (D : Type 0) : Type 0 where
  pub inflight : List (ℕ × ℕ)
  pub sent : List (ℕ × ℕ)
  pub values : List (ℕ × D)
  pub dropped : List ℕ
  pub closed : List ℕ
  pub next : ℕ

-- What other tasks do: they send, start to receive, hand over what the connection has received, or end
-- without the message their receiver is for.
pub data Elsewhere (D : Type 0) : Type 0 where
  sends : D → Elsewhere D
  starts : ℕ → Elsewhere D
  receives : List (Option D) → Elsewhere D
  leaves : ℕ → Elsewhere D

-- What a `recv_msg` meets while it waits: its receiver is polled; the connection returns slots, or fails;
-- other tasks run.
pub data MatchEvent (D : Type 0) : Type 0 where
  polled : MatchEvent D
  received : List (Option D) → MatchEvent D
  recv_failed : Report → MatchEvent D
  elsewhere : Elsewhere D → MatchEvent D

pub data MatchRun (D : Type 0) : Type 0 where
  waiting : Matcher D → MatchRun D
  returned : Outcome D → Matcher D → MatchRun D

-- The messages of the slots are handed over, or there is a panic on the way.
pub data Handed (D : Type 0) : Type 0 where
  handed : Matcher D → Handed D
  broken : Matcher D → Handed D

unfoldable pub new_matcher : {D : Type 0} → Matcher D
new_matcher = record { inflight = []; sent = []; values = []; dropped = []; closed = []; next = 0 }

abbrev pub replaced : Option ℕ → List ℕ → List ℕ
replaced none dropped = dropped
replaced (some token) dropped = token ∷ dropped

module _ {D : Type 0} (id : D → ℕ) where
  -- The part of `send_msg` before the connection's send: a message that is sent again, before it is asked
  -- for, keeps its channel.
  unfoldable pub register_msg : D → Matcher D → Matcher D
  register_msg msg m = if contains_key (id msg) m.sent then m else record m {
    inflight = insert (id msg) m.next m.inflight;
    sent = insert (id msg) m.next m.sent;
    dropped = replaced (get (id msg) m.inflight) m.dropped;
    next = suc m.next;
  }

  -- The connection's send is a function on its state.
  unfoldable pub send_msg :
      {W : Type 0}
      → (D → W → Outcome (Unit {0}) × W)
      → D
      → Matcher D × W
      → Outcome (Unit {0}) × (Matcher D × W)
  send_msg send msg (m, w) = let out = send msg w in (out.0, (register_msg msg m, out.1))

  -- A message that nobody waits for is dropped; one whose receiver is gone is a panic.
  abbrev pub hand_over : D → Option ℕ → Matcher D → Handed D
  hand_over msg none m = handed m
  hand_over msg (some token) m =
      if set_contains m.closed token
      then broken (record m { inflight = remove (id msg) m.inflight })
      else handed
          (record m { inflight = remove (id msg) m.inflight; values = insert token msg m.values })

  abbrev pub and_more : Handed D → (Matcher D → Handed D) → Handed D
  and_more (broken m) next = broken m
  and_more (handed m) next = next m

  -- `for i in 0..4`: the index is out of range where the connection has returned fewer slots.
  unfoldable pub hand_slots : ℕ → List (Option D) → Matcher D → Handed D
  hand_slots zero slots m = handed m
  hand_slots (suc n) [] m = broken m
  hand_slots (suc n) (none ∷ slots) m = hand_slots n slots m
  hand_slots (suc n) (some msg ∷ slots) m =
      and_more (hand_over msg (get (id msg) m.inflight) m) (hand_slots n slots)

  abbrev pub after_handed : Handed D → Matcher D
  after_handed (handed m) = m
  after_handed (broken m) = m

  abbrev pub close : ℕ → Matcher D → Matcher D
  close token m = record m { closed = token ∷ m.closed }

  abbrev pub elapse : Elsewhere D → Matcher D → Matcher D
  elapse (sends msg) m = register_msg msg m
  elapse (starts msg_id) m = record m { sent = remove msg_id m.sent }
  elapse (receives slots) m = after_handed (hand_slots 4 slots m)
  elapse (leaves token) m = if ltb token m.next then close token m else m

  unfoldable pub elapsed : List (Elsewhere D) → Matcher D → Matcher D
  elapsed [] m = m
  elapsed (e ∷ past) m = elapsed past (elapse e m)

  -- The receiver is ready where it has a value, or where its sender has been dropped.
  abbrev pub poll_receiver : ℕ → Option D → (Matcher D → MatchRun D) → Matcher D → MatchRun D
  poll_receiver token (some msg) again m = returned (returns (ok msg)) m
  poll_receiver token none again m =
      let next = again m in if set_contains m.dropped token then returned panics m else next

  abbrev pub after_received : ℕ → Handed D → (Matcher D → MatchRun D) → MatchRun D
  after_received token (broken m) again = returned panics (close token m)
  after_received token (handed m) again = again m

  unfoldable pub wait_msg : ℕ → List (MatchEvent D) → Matcher D → MatchRun D
  wait_msg token [] m = waiting m
  wait_msg token (polled ∷ events) m =
      poll_receiver token (get token m.values) (wait_msg token events) m
  wait_msg token (received slots ∷ events) m =
      after_received token (hand_slots 4 slots m) (wait_msg token events)
  wait_msg token (recv_failed e ∷ events) m = returned (returns (err e)) (close token m)
  wait_msg token (elsewhere e ∷ events) m = wait_msg token events (elapse e m)

  abbrev pub wait_known : ℕ → Option ℕ → List (MatchEvent D) → Matcher D → MatchRun D
  wait_known msg_id none events m = returned (returns (err (eyre "Requested msg id isn't known"))) m
  wait_known msg_id (some token) events m =
      wait_msg token events (record m { sent = remove msg_id m.sent })

  unfoldable pub recv_msg : ℕ → List (MatchEvent D) → Matcher D → MatchRun D
  recv_msg msg_id events m = wait_known msg_id (get msg_id m.sent) events m
