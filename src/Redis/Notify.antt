-- ===== src/Redis/Notify.antt =====
-- `RedisBase::notify`, which the default one is replaced by.
use tbm.Prelude.{
  ℕ, suc, ◌==◌, ltb, not, ◌&&◌, ◌||◌, List, [], ◌∷◌, Option, none, some, if◌then◌else◌, Report,
  eyre, wrap_err, ok, err, Outcome, returns, panics,
}
use tbm.Rendezvous.Backend.{RendezvousEntry, RendezvousResult, matched, no_match}
use tbm.Redis.Store.{round_ctr, Commands}
use tbm.Redis.Scripts.{Client, as_number, refresh_client}
use tbm.Redis.Waits.{Net, query, Run, blocked, done, and_then}
use tbm.Redis.Commit.{Format}
use tbm.Redis.Operations.{poll_entry}

-- One turn of `retry_poll_loop`: the query of the counts, and the poll.
pub record PollTry (R : Type 0) : Type 0 where
  pub counts : Net R
  pub poll : Net R
  pub staged_reads : List (Net R)

-- A message on one of the two channels, or the refresh; each with the turns of the polls that may follow.
pub data NotifyEvent (R : Type 0) : Type 0 where
  told : List (PollTry R) → NotifyEvent R
  stream_ended : NotifyEvent R
  refresh_due : Net R → List (PollTry R) → NotifyEvent R

-- After a failure the loop goes on, or gives up.
abbrev pub failed_poll :
    {R : Type 0} → ℕ → Report → (ℕ → R → Run R RendezvousResult) → R → Run R RendezvousResult
failed_poll poll_retries e again r =
    let next = again (suc poll_retries) r in
    if ltb 10 poll_retries
    then done (returns (err (wrap_err e (eyre "Poll after notify failed 10 times")))) r
    else next

abbrev pub after_poll :
    {R : Type 0}
    → ℕ
    → Run R RendezvousResult
    → (ℕ → R → Run R RendezvousResult)
    → Run R RendezvousResult
after_poll poll_retries (blocked r) again = blocked r
after_poll poll_retries (done (returns (ok res)) r) again = done (returns (ok res)) r
after_poll poll_retries (done (returns (err e)) r) again = failed_poll poll_retries e again r
after_poll poll_retries (done panics r) again = done panics r

module _ {R : Type 0} (db : Commands R) (format : Format) (c : Client)
    (curr_entry : RendezvousEntry) (curr_round curr_num : ℕ) where
  abbrev pub poll_once : PollTry R → R → Run R RendezvousResult
  poll_once turn r = poll_entry db format c curr_entry curr_round turn.poll turn.staged_reads r

  abbrev pub counted :
      PollTry R
      → ℕ
      → Outcome (Option ℕ × ℕ) × R
      → (ℕ → R → Run R RendezvousResult)
      → Run R RendezvousResult
  counted turn poll_retries (returns (err e), r) again = failed_poll poll_retries e again r
  counted turn poll_retries (returns (ok (none, num)), r) again =
      failed_poll poll_retries (eyre "response was of incompatible type") again r
  counted turn poll_retries (returns (ok (some round, num)), r) again =
      let polled = after_poll poll_retries (poll_once turn r) again in
      if round == curr_round && num == curr_num
      then done (returns (ok (matched num round))) r
      else polled
  counted turn poll_retries (panics, r) again = done panics r

  unfoldable pub retry_poll_loop : List (PollTry R) → ℕ → R → Run R RendezvousResult
  retry_poll_loop [] poll_retries r = blocked r
  retry_poll_loop (turn ∷ turns) poll_retries r =
      counted turn poll_retries
        (query turn.counts (λ r'. ((as_number (db.get round_ctr r'), db.zcard r'), r')) r)
        (retry_poll_loop turns)

  -- The same number of participants in a match is no news.
  abbrev pub if_news :
      Run R RendezvousResult → (R → Run R RendezvousResult) → Run R RendezvousResult
  if_news (blocked r) again = blocked r
  if_news (done (returns (ok (matched num round))) r) again =
      let next = again r in
      if num == curr_num then next else done (returns (ok (matched num round))) r
  if_news (done (returns (ok (no_match entry num round))) r) again =
      done (returns (ok (no_match entry num round))) r
  if_news (done (returns (err e)) r) again = done (returns (err e)) r
  if_news (done panics r) again = done panics r

  abbrev pub after_refresh :
      List (PollTry R)
      → Outcome (Option ℕ × ℕ) × R
      → (R → Run R RendezvousResult)
      → Run R RendezvousResult
  after_refresh turns (returns (err e), r) again =
      done (returns (err (wrap_err e (eyre "call to refresh_client")))) r
  after_refresh turns (returns (ok (none, num)), r) again =
      done (returns (err (eyre "call to refresh_client"))) r
  after_refresh turns (returns (ok (some round, num)), r) again =
      let polled = if_news (retry_poll_loop turns 0 r) again in
      let next = again r in if ltb curr_round round || not (num == curr_num) then polled else next
  after_refresh turns (panics, r) again = done panics r

  unfoldable pub notify_refresh_loop : List (NotifyEvent R) → R → Run R RendezvousResult
  notify_refresh_loop [] r = blocked r
  notify_refresh_loop (told turns ∷ events) r =
      if_news (retry_poll_loop turns 0 r) (notify_refresh_loop events)
  notify_refresh_loop (stream_ended ∷ events) r = notify_refresh_loop events r
  notify_refresh_loop (refresh_due net turns ∷ events) r =
      after_refresh turns (query net (refresh_client db c) r) (notify_refresh_loop events)

module _ {R : Type 0} (db : Commands R) (format : Format) (c : Client)
    (curr_entry : RendezvousEntry) (curr_round : ℕ) where
  abbrev pub subscribed : List (NotifyEvent R) → RendezvousResult → R → Run R RendezvousResult
  subscribed events (matched num round) r =
      notify_refresh_loop db format c curr_entry curr_round num events r
  subscribed events (no_match entry num round) r = done (returns (ok (no_match entry num round))) r

  unfoldable pub notify : Net R → List (Net R) → List (NotifyEvent R) → R → Run R RendezvousResult
  notify net staged_reads events r =
      and_then (poll_entry db format c curr_entry curr_round net staged_reads r) (subscribed events)
