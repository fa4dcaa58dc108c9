-- ===== src/Rendezvous/Preserved.antt =====
-- What a predicate needs to survive `handle_trigger`, `handle_notify` and the loop.
use tbm.Prelude.{
  ℕ, ◌+◌, ltb, ◌≡◌, Bool, true, false, List, [], ◌∷◌, Memᴰ, Option, ok, err, Outcome, returns,
  panics, ◌⊎◌, inl, inr, Bool-cases, Option-cases, find, find-eq-some, ◌==◌,
}
use tbm.Negotiate.Types.{StackNonce, Side}
use tbm.Rendezvous.Effects.{resume}
use tbm.Rendezvous.Backend.{RendezvousEntry, RendezvousResult, matched, no_match, Backend}
use tbm.Rendezvous.Handles.{find_stack_from_stub, any, extends_stub}
use tbm.Rendezvous.Monitor.{
  StackUpgradeHandle, commit, compatible, handle_trigger, handle_notify, commit_round, on_handle,
}
use tbm.Rendezvous.Loop.{
  LoopEvent, all_closed, want_transition, notified, stack_changed, LoopRun, set_current,
  after_answer, after_notify, poll_after_failure, on_request, monitor_connection_negotiation_state,
  accepts, handle_at,
}

-- An entry may be committed where it is one of the own stacks, or some handle can switch to it.
abbrev pub IsCommittable : RendezvousEntry → StackUpgradeHandle → Type 0
IsCommittable entry h = Memᴰ entry h.offers ⊎ (compatible entry h ≡ true)

pub record Stable (P : StackUpgradeHandle → Type 0) : Type 0 where
  pub counts :
      (h : StackUpgradeHandle) (num round : ℕ)
      → P h
      → P (record h { curr_num_participants = num; curr_round = round })
  pub notes : (h : StackUpgradeHandle) (num : ℕ) → P h → P (record h { participants = num })
  pub commits :
      (h : StackUpgradeHandle) (entry : RendezvousEntry) (round : ℕ)
      → IsCommittable entry h
      → P h
      → P (commit entry round h)
  pub moves :
      (h : StackUpgradeHandle) (idx : ℕ) (side : Option Side)
      → P h
      → P (record h { upgrade_handles = set_current idx side h.upgrade_handles })

module _ {P : StackUpgradeHandle → Type 0} (stable : Stable P) {S : Type 0} where
  -- The parts of the handlers that follow a call of the store, whatever it returned.
  commit_round-stable :
      (entry : RendezvousEntry) (round new_round : ℕ) (h : StackUpgradeHandle) (s : S)
      → IsCommittable entry h
      → P h
      → P (commit_round entry round new_round (h, s)).1.0
  commit_round-stable entry round new_round h s c p =
      elim (Bool-cases (ltb (round + 1) new_round)) [
        | inl late ↦ rw late p
        | inr next ↦ rw next (stable.commits h entry new_round c p)
      ]

  accept-stable :
      (entry : RendezvousEntry) (round : ℕ) (h : StackUpgradeHandle) (out : Outcome ℕ × S)
      → IsCommittable entry h
      → P h
      → P (resume (out.0, (h, out.1)) (commit_round entry round)).1.0
  accept-stable entry round h (panics, s) c p = p
  accept-stable entry round h (returns (err e), s) c p = p
  accept-stable entry round h (returns (ok new_round), s) c p =
      commit_round-stable entry round new_round h s c p

  refuse-stable :
      (h : StackUpgradeHandle) (out : Outcome ℕ × S)
      → P h
      → P
          (resume
            (out.0, (h, out.1))
            (λ new_round. on_handle (λ h'. record h' { curr_round = new_round }))).1.0
  refuse-stable h (panics, s) p = p
  refuse-stable h (returns (err e), s) p = p
  refuse-stable h (returns (ok new_round), s) p =
      stable.counts h h.curr_num_participants new_round p

  triggered-stable :
      (stack : StackNonce) (h : StackUpgradeHandle) (out : Outcome ℕ × S)
      → Memᴰ stack h.offers
      → P h
      → P (resume (out.0, (h, out.1)) (λ new_round. on_handle (commit stack new_round))).1.0
  triggered-stable stack h (panics, s) m p = p
  triggered-stable stack h (returns (err e), s) m p = p
  triggered-stable stack h (returns (ok new_round), s) m p =
      stable.commits h stack new_round (inl m) p

module _ {P : StackUpgradeHandle → Type 0} (stable : Stable P) {S : Type 0} (b : Backend S) where
  pub handle_notify-stable :
      (r : Outcome RendezvousResult) (h : StackUpgradeHandle) (s : S)
      → P h
      → P (handle_notify b r (h, s)).1.0
  unfolding handle_notify
  handle_notify-stable panics h s p = p
  handle_notify-stable (returns (err e)) h s p = p
  handle_notify-stable (returns (ok (matched num round))) h s p =
      elim (Bool-cases (num == h.curr_num_participants)) [
        | inl same ↦ rw same (stable.counts h h.curr_num_participants round p)
        | inr differs ↦ rw differs (stable.notes h num p)
      ]
  handle_notify-stable (returns (ok (no_match entry num round))) h s p =
      let counted = stable.counts h num round p in
      elim (Bool-cases (compatible entry h)) [
        | inl fits ↦ rw fits (
            accept-stable stable entry round
              (record h { curr_num_participants = num; curr_round = round })
              (b.staged_update round s) (inr fits) counted)
        | inr unfit ↦ rw unfit (
            refuse-stable stable (record h { curr_num_participants = num; curr_round = round })
              (b.transition h.curr_entry s) counted)
      ]

  pub handle_trigger-stable :
      (wanted : List StackNonce) (h : StackUpgradeHandle) (s : S)
      → P h
      → P (handle_trigger b h.offers wanted (h, s)).1.0
  unfolding handle_trigger find_stack_from_stub
  handle_trigger-stable wanted h s p =
      elim (Option-cases (find (λ stack. any (λ x. extends_stub stack x) wanted) h.offers)) [
        | inl nothing ↦ rw (nothing, find) p
        | inr (stack, hit) ↦
            let there =
              (find-eq-some (λ x. any (λ y. extends_stub x y) wanted) stack h.offers hit).0 in
            rw (hit, find) (triggered-stable stable stack h (b.transition stack s) there p)
      ]

  on_request-stable :
      (active : Bool) (wanted : List StackNonce) (h : StackUpgradeHandle) (s : S)
      → P h
      → P (on_request b active wanted h s).1.0
  on_request-stable false wanted h s p = p
  on_request-stable true wanted h s p =
      answered (handle_trigger b h.offers wanted (h, s)) (handle_trigger-stable wanted h s p)
    where
      answered :
          (out : Outcome (Unit {0}) × (StackUpgradeHandle × S))
          → P out.1.0
          → P (poll_after_failure b out).1.0
      answered (panics, (h', s')) q = q
      answered (returns (ok u), (h', s')) q = q
      answered (returns (err e), (h', s')) q =
          handle_notify-stable (b.poll_entry h'.curr_entry h'.curr_round s').0 h'
            (b.poll_entry h'.curr_entry h'.curr_round s').1 q

  after_answer-stable :
      (out : Outcome (Unit {0}) × (StackUpgradeHandle × S))
      (next : StackUpgradeHandle → S → LoopRun S)
      → ((h : StackUpgradeHandle) (s : S) → P h → P (next h s).monitor)
      → P out.1.0
      → P (after_answer out next).monitor
  after_answer-stable (panics, (h, s)) next f p = p
  after_answer-stable (returns r, (h, s)) next f p = f h s p

  after_notify-stable :
      (out : Outcome (Unit {0}) × (StackUpgradeHandle × S))
      (next : StackUpgradeHandle → S → LoopRun S)
      → ((h : StackUpgradeHandle) (s : S) → P h → P (next h s).monitor)
      → P out.1.0
      → P (after_notify out next).monitor
  after_notify-stable (panics, (h, s)) next f p = p
  after_notify-stable (returns (err e), (h, s)) next f p = p
  after_notify-stable (returns (ok u), (h, s)) next f p = f h s p

  -- A stable predicate holds of the task after any events.
  pub monitor-stable :
      (events : List (LoopEvent S)) (h : StackUpgradeHandle) (s : S)
      → P h
      → P (monitor_connection_negotiation_state b events h s).monitor
  unfolding monitor_connection_negotiation_state
  monitor-stable [] h s p = p
  monitor-stable (all_closed ∷ events) h s p = p
  monitor-stable (want_transition others idx wanted ∷ events) h s p =
      after_answer-stable
        (on_request b (accepts (handle_at idx h.upgrade_handles)) wanted h (others s))
        (monitor_connection_negotiation_state b events) (monitor-stable events)
        (on_request-stable (accepts (handle_at idx h.upgrade_handles)) wanted h (others s) p)
  monitor-stable (notified notify ∷ events) h s p =
      let r = notify h.curr_entry h.curr_round s in
      after_notify-stable (handle_notify b r.0 (h, r.1))
        (monitor_connection_negotiation_state b events) (monitor-stable events)
        (handle_notify-stable r.0 h r.1 p)
  monitor-stable (stack_changed idx side ∷ events) h s p =
      monitor-stable events _ s (stable.moves h idx side p)
