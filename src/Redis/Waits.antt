-- ===== src/Redis/Waits.antt =====
-- Queries that may fail, among what the other clients do, and the loops that wait for a commit.
use tbm.Prelude.{
  ℕ, suc, ◌==◌, Bool, List, [], ◌∷◌, Option, none, some, if◌then◌else◌, Report, eyre, Result, ok,
  err, Outcome, returns, panics,
}
use tbm.Rendezvous.Effects.{M}
use tbm.Redis.Store.{Commands}
use tbm.Redis.Scripts.{Client, read_committed, read_round}

-- Before a query the other clients apply a function to the store; a query that fails has no effect of its
-- own, or `others` has it.
pub record Net (R : Type 0) : Type 0 where
  pub others : R → R
  pub fails : Option Report

abbrev pub replies : {R A : Type 0} → Option Report → A × R → R → Outcome A × R
replies (some e) answer r = (returns (err e), r)
replies none (a, r') r = (returns (ok a), r')

abbrev pub query : {R A : Type 0} → Net R → (R → A × R) → M R A
query net tx r = replies net.fails (tx (net.others r)) (net.others r)

-- A script may itself end in an error.
abbrev pub script_result : {R A : Type 0} → Outcome (Result A) × R → Outcome A × R
script_result (returns (ok a), r) = (returns a, r)
script_result (returns (err e), r) = (returns (err e), r)
script_result (panics, r) = (panics, r)

abbrev pub invoke : {R A : Type 0} → Net R → (R → Result A × R) → M R A
invoke net script r = script_result (query net script r)

-- A call that waits where what it is told has run out, or that ends.
pub data Run (R A : Type 0) : Type 0 where
  blocked : R → Run R A
  done : Outcome A → R → Run R A

abbrev pub and_then : {R A B : Type 0} → Run R A → (A → R → Run R B) → Run R B
and_then (blocked r) next = blocked r
and_then (done (returns (ok a)) r) next = next a r
and_then (done (returns (err e)) r) next = done (returns (err e)) r
and_then (done panics r) next = done panics r

abbrev pub run : {R A : Type 0} → Outcome A × R → Run R A
run (out, r) = done out r

-- A loop that goes on until a query finds a value.
abbrev pub until_found :
    {R A : Type 0} → Outcome (Option A × ℕ) × R → (R → Run R (A × ℕ)) → Run R (A × ℕ)
until_found (returns (ok (some a, num)), r) again = done (returns (ok (a, num))) r
until_found (returns (ok (none, num)), r) again = again r
until_found (returns (err e), r) again = done (returns (err e)) r
until_found (panics, r) again = done panics r

-- A message on the channel of the commit counter, by what its channel and its payload contain; or the
-- refresh is due, with the queries of its loop.
pub data WaitEvent (R : Type 0) : Type 0 where
  message : Bool → Bool → Bool → WaitEvent R
  refresh_due : List (Net R) → WaitEvent R

module _ {R : Type 0} (db : Commands R) (c : Client) (round : ℕ) where
  unfoldable pub refresh_commit : List (Net R) → R → Run R (ℕ × ℕ)
  refresh_commit [] r = blocked r
  refresh_commit (net ∷ nets) r =
      until_found (query net (read_committed db c round) r) (refresh_commit nets)

  -- A refresh that fails ends the wait.
  abbrev pub applier_refreshed : Run R (ℕ × ℕ) → (R → Run R (Unit {0})) → Run R (Unit {0})
  applier_refreshed (blocked r) again = blocked r
  applier_refreshed (done (returns (ok counts)) r) again = again r
  applier_refreshed (done (returns (err e)) r) again = done (returns (ok tt)) r
  applier_refreshed (done panics r) again = done panics r

  -- The loop of `wait_applier`: it ends with the deletion of the counter.
  unfoldable pub applier_loop : List (WaitEvent R) → R → Run R (Unit {0})
  applier_loop [] r = blocked r
  applier_loop (message on_counter has_del has_incrby ∷ events) r =
      let again = applier_loop events r in
      if on_counter then (if has_del then done (returns (ok tt)) r else again) else again
  applier_loop (refresh_due nets ∷ events) r =
      applier_refreshed (refresh_commit nets r) (applier_loop events)

  -- The reply is a `usize`.
  abbrev pub round_reply : Outcome (Option ℕ) × R → Run R ℕ
  round_reply (returns (ok (some n)), r) = done (returns (ok n)) r
  round_reply (returns (ok none), r) =
      done (returns (err (eyre "response was of incompatible type"))) r
  round_reply (returns (err e), r) = done (returns (err e)) r
  round_reply (panics, r) = done panics r

  unfoldable pub wait_applier : List (WaitEvent R) → Net R → R → Run R ℕ
  wait_applier events net r =
      and_then (applier_loop events r) (λ u r'. round_reply (query net (read_round db c) r'))

  abbrev pub committer_refreshed : Run R (ℕ × ℕ) → (ℕ → ℕ → R → Run R (Unit {0})) → Run R (Unit {0})
  committer_refreshed (blocked r) again = blocked r
  committer_refreshed (done (returns (ok (count, total))) r) again =
      if count == total then done (returns (ok tt)) r else again count total r
  committer_refreshed (done (returns (err e)) r) again = done (returns (err e)) r
  committer_refreshed (done panics r) again = done panics r

  -- It counts the acknowledgements up to the number of participants, and reads both again at each refresh.
  unfoldable pub wait_committer : List (WaitEvent R) → ℕ → ℕ → R → Run R (Unit {0})
  wait_committer [] count total r = blocked r
  wait_committer (message on_counter has_del has_incrby ∷ events) count total r =
      let counted = wait_committer events (suc count) total r in
      let again = wait_committer events count total r in
      if has_incrby
      then (if suc count == total then done (returns (ok tt)) r else counted)
      else again
  wait_committer (refresh_due nets ∷ events) count total r =
      committer_refreshed (refresh_commit nets r) (wait_committer events)
