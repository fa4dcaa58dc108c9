-- ===== src/Redis/Operations.antt =====
-- `RedisBase`: `try_init`, `poll_entry` and `leave`.
use tbm.Prelude.{
  ℕ, ◌==◌, ltb, Bool, true, false, List, [], ◌∷◌, Option, none, some, if◌then◌else◌, Bytes, eyre,
  Result, ok, err, returns,
}
use tbm.Rendezvous.Backend.{RendezvousEntry, RendezvousResult, matched, no_match}
use tbm.Rendezvous.Handles.{nonce_eq}
use tbm.Redis.Store.{join_lock, Commands}
use tbm.Redis.Scripts.{
  Client, InitReply, PollReply, has_name, try_init_script, poll_entry_script, read_staged,
}
use tbm.Redis.Waits.{Net, query, invoke, Run, blocked, done, and_then, run, until_found}
use tbm.Redis.Commit.{Format, TransitionEvents, run_result, transition}

-- One attempt of `try_init`, and the transition where nobody else is there.
pub record InitEvents (R : Type 0) : Type 0 where
  pub init : Net R
  pub override : TransitionEvents R

module _ {R : Type 0} (db : Commands R) (format : Format) (c : Client) where
  abbrev pub found_entry : ℕ → ℕ → Result RendezvousEntry → R → Run R RendezvousResult
  found_entry num round (ok entry) r = done (returns (ok (no_match entry num round))) r
  found_entry num round (err e) r = done (returns (err e)) r

  abbrev pub compare_entry :
      RendezvousEntry → ℕ → ℕ → Result RendezvousEntry → R → Run R RendezvousResult
  compare_entry curr_entry num round (err e) r = done (returns (err e)) r
  compare_entry curr_entry num round (ok present) r =
      if nonce_eq present curr_entry
      then done (returns (ok (matched num round))) r
      else done (returns (ok (no_match present num round))) r

  unfoldable pub read_new_round : ℕ → List (Net R) → R → Run R (Bytes × ℕ)
  read_new_round round [] r = blocked r
  read_new_round round (net ∷ nets) r =
      until_found (query net (read_staged db c round) r) (read_new_round round nets)

  abbrev pub new_round_entry : ℕ → Bytes × ℕ → R → Run R RendezvousResult
  new_round_entry round ([], num) r =
      done (returns (err (eyre "KV store polluted: staged_val key empty"))) r
  new_round_entry round (b ∷ bs, num) r = found_entry num round (format.deserialize (b ∷ bs)) r

  abbrev pub poll_round :
      RendezvousEntry → ℕ → List (Net R) → Bytes → ℕ → ℕ → R → Run R RendezvousResult
  poll_round curr_entry curr_round staged_reads value round num r =
      if round == curr_round
      then compare_entry curr_entry num round (format.deserialize value) r
      else if ltb curr_round round
      then and_then (read_new_round round staged_reads r) (new_round_entry round)
      else done (returns (err (eyre "KV store polluted: round_ctr ticked backwards"))) r

  abbrev pub polled_values :
      RendezvousEntry → ℕ → List (Net R) → Option Bytes → Option ℕ → ℕ → R → Run R RendezvousResult
  polled_values curr_entry curr_round staged_reads none round num r =
      done (returns (err (eyre "nonce value was nil"))) r
  polled_values curr_entry curr_round staged_reads (some v) none num r =
      done (returns (err (eyre "round-ctr was nil"))) r
  polled_values curr_entry curr_round staged_reads (some v) (some round) num r =
      poll_round curr_entry curr_round staged_reads v round num r

  abbrev pub polled : RendezvousEntry → ℕ → List (Net R) → PollReply → R → Run R RendezvousResult
  polled curr_entry curr_round staged_reads reply r =
      polled_values curr_entry curr_round staged_reads reply.value reply.round reply.conn_count r

  unfoldable pub poll_entry :
      RendezvousEntry → ℕ → Net R → List (Net R) → R → Run R RendezvousResult
  poll_entry curr_entry curr_round net staged_reads r =
      and_then (run (query net (poll_entry_script db c) r))
        (polled curr_entry curr_round staged_reads)

  abbrev pub alone : RendezvousEntry → TransitionEvents R → ℕ → R → Run R RendezvousResult
  alone offer events round r =
      and_then (transition db format c offer events r)
        (λ n r'. done (returns (ok (matched 1 round))) r')

  -- A nil reply is an empty `Vec<u8>`.
  abbrev pub or_empty : Option Bytes → Bytes
  or_empty none = []
  or_empty (some b) = b

  abbrev pub not_joined :
      RendezvousEntry → TransitionEvents R → ℕ → ℕ → Bytes → R → Run R RendezvousResult
  not_joined offer events round num semantics r =
      if num == 0
      then alone offer events round r
      else found_entry num round (format.deserialize semantics) r

  -- By the first number of the reply; 0 waits for the join lock and tries again.
  abbrev pub initialised :
      RendezvousEntry
      → TransitionEvents R
      → InitReply
      → ℕ
      → (R → Run R RendezvousResult)
      → R
      → Run R RendezvousResult
  initialised offer events reply round again r =
      if reply.created == 2
      then done (returns (ok (matched reply.conn_count round))) r
      else if reply.created == 1
      then not_joined offer events round reply.conn_count (or_empty reply.semantics) r
      else if reply.created == 0
      then again r
      else done (returns (err (eyre "Invalid return value from try_init"))) r

  abbrev pub init_reply :
      RendezvousEntry
      → TransitionEvents R
      → (R → Run R RendezvousResult)
      → InitReply
      → Option ℕ
      → R
      → Run R RendezvousResult
  init_reply offer events again reply none r =
      done (returns (err (eyre "response was of incompatible type"))) r
  init_reply offer events again reply (some round) r = initialised offer events reply round again r

  unfoldable pub init_loop :
      RendezvousEntry → Bytes → List (InitEvents R) → R → Run R RendezvousResult
  init_loop offer nonce [] r = blocked r
  init_loop offer nonce (attempt ∷ attempts) r =
      and_then (run (invoke attempt.init (try_init_script db c nonce) r)) (λ reply.
        init_reply offer attempt.override (init_loop offer nonce attempts) reply reply.round)

  unfoldable pub try_init : RendezvousEntry → List (InitEvents R) → R → Run R RendezvousResult
  try_init offer attempts r =
      and_then (run_result (format.serialize offer) r) (λ nonce. init_loop offer nonce attempts)

  -- The lock is compared with the address, and not with the client's name that the scripts write to it.
  abbrev pub leave_locked : Bool → Net R → R → Run R (Unit {0})
  leave_locked true net r = run (query net (λ r'. (tt, db.del join_lock r')) r)
  leave_locked false net r = run (query net (λ r'. (tt, db.zrem c.name r')) r)

  unfoldable pub leave : ℕ → Net R → Net R → R → Run R (Unit {0})
  leave addr read change r =
      and_then (run (query read (λ r'. (db.get join_lock r', r')) r))
        (λ v. leave_locked (has_name v addr) change)
