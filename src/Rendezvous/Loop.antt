-- ===== src/Rendezvous/Loop.antt =====
-- `monitor_connection_negotiation_state`: the loop over what the task is told, where the stack has at least
-- one handle (`select_all` panics on none), and whoever makes a request waits for its answer (`done.send`
-- panics where nobody does).
use tbm.Prelude.{
  ℕ, zero, suc, Bool, true, false, List, [], ◌∷◌, Option, none, some, eyre, Result, ok, err,
  Outcome, returns, panics,
}
use tbm.Negotiate.Types.{StackNonce, Side}
use tbm.Rendezvous.Effects.{M}
use tbm.Rendezvous.Backend.{RendezvousEntry, RendezvousResult, Backend}
use tbm.Rendezvous.Handles.{UpgradeHandle, is_active}
use tbm.Rendezvous.Monitor.{StackUpgradeHandle, handle_trigger, handle_notify}

-- What the loop goes on with. A request of the handle `idx` comes after what the other endpoints do to
-- the store; a call of `notify`, which a store may implement itself, ends; a connection tells a
-- handle the side that it uses.
pub data LoopEvent (S : Type 0) : Type 0 where
  all_closed : LoopEvent S
  want_transition : (S → S) → ℕ → List StackNonce → LoopEvent S
  notified : (RendezvousEntry → ℕ → M S RendezvousResult) → LoopEvent S
  stack_changed : ℕ → Option Side → LoopEvent S

-- How the loop stands or ends, with the answers to the requests, in order.
pub data LoopEnd : Type 0 where
  listening : LoopEnd
  ended : Outcome (Unit {0}) → LoopEnd

pub record LoopRun (S : Type 0) : Type 0 where
  pub end : LoopEnd
  pub answers : List (Result (Unit {0}))
  pub monitor : StackUpgradeHandle
  pub store : S

abbrev pub handle_at : ℕ → List UpgradeHandle → Option UpgradeHandle
handle_at idx [] = none
handle_at zero (uh ∷ uhs) = some uh
handle_at (suc idx) (uh ∷ uhs) = handle_at idx uhs

abbrev pub set_current : ℕ → Option Side → List UpgradeHandle → List UpgradeHandle
set_current idx side [] = []
set_current zero side (uh ∷ uhs) = record uh { current = side } ∷ uhs
set_current (suc idx) side (uh ∷ uhs) = uh ∷ set_current idx side uhs

abbrev pub accepts : Option UpgradeHandle → Bool
accepts none = false
accepts (some uh) = is_active uh

abbrev pub put_answer : {S : Type 0} → Result (Unit {0}) → LoopRun S → LoopRun S
put_answer answer run = record run { answers = answer ∷ run.answers }

-- A call that panics takes the loop with it.
abbrev pub after_answer :
    {S : Type 0}
    → Outcome (Unit {0}) × (StackUpgradeHandle × S)
    → (StackUpgradeHandle → S → LoopRun S)
    → LoopRun S
after_answer (returns r, (h, s)) next = put_answer r (next h s)
after_answer (panics, (h, s)) next = record {
  end = ended panics;
  answers = [];
  monitor = h;
  store = s;
}

abbrev pub after_notify :
    {S : Type 0}
    → Outcome (Unit {0}) × (StackUpgradeHandle × S)
    → (StackUpgradeHandle → S → LoopRun S)
    → LoopRun S
after_notify (returns (ok u), (h, s)) next = next h s
after_notify (returns (err e), (h, s)) next = record {
  end = ended (returns (err e));
  answers = [];
  monitor = h;
  store = s;
}
after_notify (panics, (h, s)) next = record {
  end = ended panics;
  answers = [];
  monitor = h;
  store = s;
}

module _ {S : Type 0} (b : Backend S) where
  -- A request that fails is followed by a poll, whose result is the answer.
  abbrev pub poll_after_failure :
      Outcome (Unit {0}) × (StackUpgradeHandle × S) → Outcome (Unit {0}) × (StackUpgradeHandle × S)
  poll_after_failure (returns (err e), (h, s)) =
      let polled = b.poll_entry h.curr_entry h.curr_round s in
      handle_notify b polled.0 (h, polled.1)
  poll_after_failure (returns (ok u), (h, s)) = (returns (ok u), (h, s))
  poll_after_failure (panics, (h, s)) = (panics, (h, s))

  abbrev pub on_request :
      Bool
      → List StackNonce
      → StackUpgradeHandle
      → S
      → Outcome (Unit {0}) × (StackUpgradeHandle × S)
  on_request false wanted h s = (returns (err (eyre "Select is not active")), (h, s))
  on_request true wanted h s = poll_after_failure (handle_trigger b h.offers wanted (h, s))

  unfoldable pub monitor_connection_negotiation_state :
      List (LoopEvent S) → StackUpgradeHandle → S → LoopRun S
  monitor_connection_negotiation_state [] h s = record {
    end = listening;
    answers = [];
    monitor = h;
    store = s;
  }
  monitor_connection_negotiation_state (all_closed ∷ events) h s = record {
    end = ended (returns (ok tt));
    answers = [];
    monitor = h;
    store = s;
  }
  monitor_connection_negotiation_state (want_transition others idx wanted ∷ events) h s =
      after_answer (on_request (accepts (handle_at idx h.upgrade_handles)) wanted h (others s))
        (monitor_connection_negotiation_state events)
  monitor_connection_negotiation_state (notified notify ∷ events) h s =
      let r = notify h.curr_entry h.curr_round s in
      after_notify (handle_notify b r.0 (h, r.1)) (monitor_connection_negotiation_state events)
  monitor_connection_negotiation_state (stack_changed idx side ∷ events) h s =
      monitor_connection_negotiation_state events
        (record h { upgrade_handles = set_current idx side h.upgrade_handles }) s
