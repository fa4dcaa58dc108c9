-- ===== src/Redis/Retries.antt =====
-- How long `retry_poll_loop` goes on.
use tbm.Prelude.{
  ℕ, suc, ◌+◌, ltb, ◌≡◌, ◌≤◌, ◌<◌, refl, List, [], ◌∷◌, length, All, some, Report, wrap_err, eyre,
  err, returns, inl, inr, Bool-cases, arith,
}
use tbm.Rendezvous.Backend.{RendezvousEntry}
use tbm.Redis.Store.{Commands}
use tbm.Redis.Scripts.{Client}
use tbm.Redis.Waits.{done}
use tbm.Redis.Commit.{Format}
use tbm.Redis.Notify.{PollTry, retry_poll_loop}

-- A turn whose first query fails.
abbrev pub FailsAtOnce : {R : Type 0} → PollTry R → Type 0
FailsAtOnce turn = (e : Report) × (turn.counts.fails ≡ some e)

module _ {R : Type 0} (db : Commands R) (format : Format) (c : Client)
    (curr_entry : RendezvousEntry) (curr_round curr_num : ℕ) where
  -- With `poll_retries` failures behind it, the loop ends with an error after at most `12 - poll_retries`
  -- further turns that fail at once.
  retries_end :
      (turns : List (PollTry R)) (poll_retries : ℕ) (r : R)
      → All FailsAtOnce turns
      → 12 ≤ length turns + poll_retries
      → poll_retries < 12
      → (e : Report) × (r' : R) × (retry_poll_loop db format c curr_entry curr_round curr_num turns
            poll_retries r
          ≡ done (returns (err e)) r')
  unfolding retry_poll_loop
  retries_end [] poll_retries r fail enough few = absurd (omega arith)
  retries_end (turn ∷ turns) poll_retries r fail enough few =
      let (e, fails) = fail.0 in
      elim (Bool-cases (ltb 10 poll_retries)) [
        | inl last ↦ (
          wrap_err e (eyre "Poll after notify failed 10 times"),
          turn.counts.others r,
          rw (fails, last) refl,
        )
        | inr early ↦
            let (e', r', ends) =
              retries_end turns (suc poll_retries) (turn.counts.others r) fail.1 (omega arith)
                (ground arith) in
            (e', r', rw (fails, early) ends)
      ]

  -- The loop gives up: of twelve or more turns whose first query fails it takes at most twelve, and ends with
  -- an error.
  pub retry_poll_loop_ends :
      (turns : List (PollTry R)) (r : R)
      → All FailsAtOnce turns
      → 12 ≤ length turns
      → (e : Report) × (r' : R) × (retry_poll_loop db format c curr_entry curr_round curr_num turns
            0 r
          ≡ done (returns (err e)) r')
  retry_poll_loop_ends turns r fail enough = retries_end turns 0 r fail (omega arith) (omega arith)
