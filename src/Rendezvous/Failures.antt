-- ===== src/Rendezvous/Failures.antt =====
-- Requests and notifications that fail: the connections are left as they are.
use tbm.Prelude.{
  ℕ, ◌+◌, ltb, ◌≡◌, refl, ◌∙◌, Bool, true, false, List, find, ok, err, Outcome, returns, panics,
  inl, inr, Bool-cases, Option-cases,
}
use tbm.Negotiate.Types.{StackNonce}
use tbm.Rendezvous.Effects.{M, resume}
use tbm.Rendezvous.Backend.{RendezvousEntry, RendezvousResult, matched, no_match, Backend}
use tbm.Rendezvous.Handles.{find_stack_from_stub, any, extends_stub}
use tbm.Rendezvous.Monitor.{
  StackUpgradeHandle, compatible, commit_round, handle_trigger, handle_notify,
}
use tbm.Rendezvous.Loop.{poll_after_failure, on_request}

abbrev pub is_ok : {A : Type 0} → Outcome A → Bool
is_ok (returns (ok a)) = true
is_ok (returns (err e)) = false
is_ok panics = false

-- The entry, and all that the connections are told.
pub record Kept (before after : StackUpgradeHandle) : Type 0 where
  pub same_entry : after.curr_entry ≡ before.curr_entry
  pub same_handles : after.upgrade_handles ≡ before.upgrade_handles

module _ {S : Type 0} where
  abbrev pub FailsClean :
      StackUpgradeHandle → Outcome (Unit {0}) × (StackUpgradeHandle × S) → Type 0
  FailsClean h out = is_ok out.0 ≡ false → Kept h out.1.0

  -- The part of a handler that follows a call of the store fails where the call does.
  call-FailsClean :
      (before h : StackUpgradeHandle) (out : Outcome ℕ × S)
      (next : ℕ → M (StackUpgradeHandle × S) (Unit {0}))
      → Kept before h
      → ((n : ℕ) (s : S) → is_ok (next n (h, s)).0 ≡ true)
      → FailsClean before (resume (out.0, (h, out.1)) next)
  call-FailsClean before h (panics, s) next k succeeds failed = k
  call-FailsClean before h (returns (err e), s) next k succeeds failed = k
  call-FailsClean before h (returns (ok n), s) next k succeeds failed = absurd (cc (succeeds n s))

  commit_round_succeeds :
      (entry : RendezvousEntry) (round n : ℕ) (h : StackUpgradeHandle) (s : S)
      → is_ok (commit_round entry round n (h, s)).0 ≡ true
  commit_round_succeeds entry round n h s = elim (Bool-cases (ltb (round + 1) n)) [
    | inl late ↦ rw late refl
    | inr next ↦ rw next refl
  ]

module _ {S : Type 0} (b : Backend S) where
  handle_notify-FailsClean :
      (r : Outcome RendezvousResult) (h : StackUpgradeHandle) (s : S)
      → FailsClean h (handle_notify b r (h, s))
  unfolding handle_notify
  handle_notify-FailsClean panics h s failed = record { same_entry = refl; same_handles = refl }
  handle_notify-FailsClean (returns (err e)) h s failed = record {
    same_entry = refl;
    same_handles = refl;
  }
  handle_notify-FailsClean (returns (ok (matched num round))) h s failed = absurd (cc failed)
  handle_notify-FailsClean (returns (ok (no_match entry num round))) h s failed =
      let counted = record h { curr_num_participants = num; curr_round = round } in
      let same : Kept h counted = record { same_entry = refl; same_handles = refl } in
      elim (Bool-cases (compatible entry h)) [
        | inl fits ↦ rw fits (
            call-FailsClean h counted (b.staged_update round s) (commit_round entry round) same
              (λ n s'. commit_round_succeeds entry round n counted s') (rw fits at failed))
        | inr unfit ↦ rw unfit (
            call-FailsClean h counted (b.transition h.curr_entry s) _ same (λ n s'. refl)
              (rw unfit at failed))
      ]

  handle_trigger-FailsClean :
      (wanted : List StackNonce) (h : StackUpgradeHandle) (s : S)
      → FailsClean h (handle_trigger b h.offers wanted (h, s))
  unfolding handle_trigger find_stack_from_stub
  handle_trigger-FailsClean wanted h s failed =
      let same : Kept h h = record { same_entry = refl; same_handles = refl } in
      elim (Option-cases (find (λ stack. any (λ x. extends_stub stack x) wanted) h.offers)) [
        | inl nothing ↦ rw (nothing, find) same
        | inr (stack, hit) ↦
            rw (hit, find)
              (call-FailsClean h h (b.transition stack s) _ same (λ n s'. refl)
                (rw (hit, find) at failed))
      ]

  poll-FailsClean :
      (h : StackUpgradeHandle) (out : Outcome (Unit {0}) × (StackUpgradeHandle × S))
      → FailsClean h out
      → FailsClean h (poll_after_failure b out)
  poll-FailsClean h (panics, (h', s)) clean failed = clean failed
  poll-FailsClean h (returns (ok u), (h', s)) clean failed = clean failed
  poll-FailsClean h (returns (err e), (h', s)) clean failed =
      let polled = b.poll_entry h'.curr_entry h'.curr_round s in
      let first = clean refl in
      let second = handle_notify-FailsClean polled.0 h' polled.1 failed in
      record {
        same_entry = second.same_entry ∙ first.same_entry;
        same_handles = second.same_handles ∙ first.same_handles;
      }

  -- A request of a handle that is answered with an error, or that panics, leaves the entry and all that
  -- the connections are told as they were, the poll after a failed transition included.
  pub request-Kept :
      (active : Bool) (wanted : List StackNonce) (h : StackUpgradeHandle) (s : S)
      → is_ok (on_request b active wanted h s).0 ≡ false
      → Kept h (on_request b active wanted h s).1.0
  request-Kept false wanted h s failed = record { same_entry = refl; same_handles = refl }
  request-Kept true wanted h s failed =
      poll-FailsClean h (handle_trigger b h.offers wanted (h, s))
        (handle_trigger-FailsClean wanted h s) failed
