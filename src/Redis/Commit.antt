-- ===== src/Redis/Commit.antt =====
-- `RedisBase::transition` and `staged_update`. Subscriptions are not modelled: what they bring are events.
use tbm.Prelude.{
  ℕ, ◌%◌, ◌==◌, ltb, Bool, true, false, ◌&&◌, List, [], ◌∷◌, if◌then◌else◌, Bytes, eyre, Result, ok,
  err, returns,
}
use tbm.Rendezvous.Backend.{RendezvousEntry}
use tbm.Redis.Store.{Commands}
use tbm.Redis.Scripts.{Client, transition_script, stage, clean_up, read_committed, acknowledge}
use tbm.Redis.Waits.{
  Net, query, invoke, Run, blocked, done, and_then, run, until_found, WaitEvent, wait_applier,
  wait_committer,
}

-- bincode
pub record Format : Type 0 where
  pub serialize : RendezvousEntry → Result Bytes
  pub deserialize : Bytes → Result RendezvousEntry

-- What a `transition` meets: as committer or as applier.
pub record TransitionEvents (R : Type 0) : Type 0 where
  pub lock : Net R
  pub staging : Net R
  pub waits : List (WaitEvent R)
  pub cleaning : Net R
  pub reads : List (Net R)
  pub fetch : Net R

abbrev pub run_result : {R A : Type 0} → Result A → R → Run R A
run_result r s = done (returns r) s

module _ {R : Type 0} (db : Commands R) (format : Format) (c : Client) where
  abbrev pub checked_round : ℕ → R → Run R ℕ
  checked_round round r =
      if round % 2 == 0
      then done (returns (ok round)) r
      else done (returns (err (eyre "Polluted KV store: Commit done but round_ctr odd"))) r

  abbrev pub clean_commit : ℕ → Bytes → TransitionEvents R → R → Run R ℕ
  clean_commit round nonce events r =
      and_then (run (query events.cleaning (clean_up db round nonce) r)) checked_round

  abbrev pub await_commit : ℕ → Bytes → TransitionEvents R → ℕ → R → Run R ℕ
  await_commit round nonce events conn_count r =
      if ltb 1 conn_count
      then and_then (wait_committer db c round events.waits 1 conn_count r)
          (λ u. clean_commit round nonce events)
      else clean_commit round nonce events r

  abbrev pub staged_commit : ℕ → Bytes → TransitionEvents R → Bool × Bool × ℕ → R → Run R ℕ
  staged_commit round nonce events (set_staged, set_commit_ctr, conn_count) r =
      if set_staged && set_commit_ctr
      then await_commit round nonce events conn_count r
      else done
          (returns
            (err (eyre "Polluted KV store: Locked commit but staged values already present")))
          r

  abbrev pub commit_locked : ℕ → Bytes → TransitionEvents R → R → Run R ℕ
  commit_locked round nonce events r =
      and_then (run (query events.staging (stage db c round nonce) r))
        (staged_commit round nonce events)

  -- The pipe of this loop is made once, so that a second turn sends the commands of the first again.
  unfoldable pub read_counter : ℕ → List (Net R) → R → Run R (ℕ × ℕ)
  read_counter round [] r = blocked r
  read_counter round (net ∷ nets) r =
      until_found (query net (read_committed db c round) r) (read_counter round nets)

  abbrev pub follow_commit : ℕ → TransitionEvents R → ℕ × ℕ → R → Run R ℕ
  follow_commit round events (count, conn_count) r =
      if ltb 1 conn_count
      then wait_applier db c round events.waits events.fetch r
      else done (returns (err (eyre "KV store polluted: found existing commit"))) r

  abbrev pub commit_or_follow : Bytes → TransitionEvents R → Bool × ℕ → R → Run R ℕ
  commit_or_follow nonce events (true, round) r = commit_locked round nonce events r
  commit_or_follow nonce events (false, round) r =
      and_then (read_counter round events.reads r) (follow_commit round events)

  unfoldable pub transition : RendezvousEntry → TransitionEvents R → R → Run R ℕ
  transition new_entry events r = and_then (run_result (format.serialize new_entry) r) (λ nonce r₁.
      and_then (run (invoke events.lock (transition_script db c) r₁))
        (commit_or_follow nonce events))

  unfoldable pub staged_update : ℕ → Net R → List (WaitEvent R) → Net R → R → Run R ℕ
  staged_update round ack waits fetch r =
      and_then (run (query ack (acknowledge db c round) r))
        (λ counts. wait_applier db c round waits fetch)
