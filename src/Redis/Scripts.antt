-- ===== src/Redis/Scripts.antt =====
-- The Lua scripts, and the pipes that are executed atomically.
use tbm.Prelude.{
  ℕ, ◌%◌, ◌==◌, Bool, true, false, Option, none, some, if◌then◌else◌, Bytes, bytes_eq, eyre, Result,
  ok, err,
}
use tbm.Redis.Store.{
  entry, round_ctr, join_lock, staged, committed_cnt, Value, number, bytes, Commands,
}

-- A client's name, and its two readings of the clock: the expiry time and the insert time.
pub record Client : Type 0 where
  pub name : ℕ
  pub expiry_time : ℕ
  pub insert_time : ℕ

-- The replies of tryinit.lua and pollentry.lua.
pub record InitReply : Type 0 where
  pub created : ℕ
  pub round : Option ℕ
  pub conn_count : ℕ
  pub semantics : Option Bytes

pub record PollReply : Type 0 where
  pub value : Option Bytes
  pub round : Option ℕ
  pub conn_count : ℕ

abbrev pub as_bytes : Option Value → Option Bytes
as_bytes (some (bytes b)) = some b
as_bytes _ = none

abbrev pub as_number : Option Value → Option ℕ
as_number (some (number n)) = some n
as_number _ = none

abbrev pub has_name : Option Value → ℕ → Bool
has_name (some (number n)) name = n == name
has_name _ name = false

abbrev pub is_bytes : Option Value → Bytes → Bool
is_bytes (some (bytes b)) offer = bytes_eq b offer
is_bytes _ offer = false

module _ {R : Type 0} (db : Commands R) where
  -- The clean-up of expired clients, and an entry for this one.
  abbrev pub expire : Client → R → R
  expire c r = db.zrembyscore 0 c.expiry_time r

  abbrev pub stay : Client → R → R
  stay c r = db.zadd c.name c.insert_time r

  abbrev pub unlock : Client → R → R
  unlock c r = if has_name (db.get join_lock r) c.name then db.del join_lock r else r

  abbrev pub joined : Client → Option ℕ → Bytes → R → Result InitReply × R
  joined c round offer r = (
    ok (record { created = 2; round = round; conn_count = db.zcard r; semantics = some offer }),
    r,
  )

  -- In the script the lock is tested against `nil`, which a reply never is: a nil reply is `false` in Lua.
  abbrev pub take_join_lock : Client → Option ℕ → Option Bytes → R → Result InitReply × R
  take_join_lock c round present r = (
    ok (record { created = 1; round = round; conn_count = db.zcard r; semantics = present }),
    (db.set_nx_ex join_lock (number c.name) 3 r).1,
  )

  abbrev pub init_created : Client → Bytes → Bool × R → Result InitReply × R
  init_created c offer (true, r) = joined c (some 0) offer (stay c r)
  init_created c offer (false, r) =
      (err (eyre "KV store polluted: roundctr key already present"), r)

  abbrev pub init_present : Client → Bytes → Option Value → Option ℕ → R → Result InitReply × R
  init_present c offer present round r =
      if is_bytes present offer
      then joined c round offer (stay c r)
      else take_join_lock c round (as_bytes present) r

  abbrev pub init_set : Client → Bytes → Bool × R → Result InitReply × R
  init_set c offer (true, r) = init_created c offer (db.set_nx round_ctr (number 0) (expire c r))
  init_set c offer (false, r) =
      init_present c offer (db.get entry r) (as_number (db.get round_ctr r)) (expire c r)

  -- tryinit.lua
  unfoldable pub try_init_script : Client → Bytes → R → Result InitReply × R
  try_init_script c offer r = init_set c offer (db.set_nx entry (bytes offer) r)

  -- pollentry.lua
  unfoldable pub poll_entry_script : Client → R → PollReply × R
  poll_entry_script c r =
      let unlocked = unlock c (expire c r) in
      let added = stay c unlocked in
      (
        record {
          value = as_bytes (db.get entry unlocked);
          round = as_number (db.get round_ctr unlocked);
          conn_count = db.zcard added;
        },
        added,
      )

  abbrev pub lock_round : Option ℕ → R → Result (Bool × ℕ) × R
  lock_round none r = (err (eyre "attempt to perform arithmetic on a boolean value"), r)
  lock_round (some round) r =
      if round % 2 == 0
      then (ok (true, (db.incr round_ctr r).0), (db.incr round_ctr r).1)
      else (ok (false, round), r)

  -- transition.lua
  unfoldable pub transition_script : Client → R → Result (Bool × ℕ) × R
  transition_script c r =
      let unlocked = unlock c r in lock_round (as_number (db.get round_ctr unlocked)) unlocked

  -- The pipe of a committer: whether both values were set, and the number of participants.
  unfoldable pub stage : Client → ℕ → Bytes → R → (Bool × Bool × ℕ) × R
  stage c round nonce r =
      let value = db.set_nx (staged round) (bytes nonce) r in
      let count = db.set_nx (committed_cnt round) (number 1) value.1 in
      let added = stay c (expire c count.1) in ((value.0, count.0, db.zcard added), added)

  -- The clean-up of a commit, with the new round.
  unfoldable pub clean_up : ℕ → Bytes → R → ℕ × R
  clean_up round nonce r =
      db.incr round_ctr
        (db.del (committed_cnt round) (db.del (staged round) (db.set entry (bytes nonce) r)))

  -- A pipe that refreshes the client after a read or a change, with the number of participants.
  abbrev pub refreshed : {A : Type 0} → Client → A → R → (A × ℕ) × R
  refreshed c a r = let added = stay c (expire c r) in ((a, db.zcard added), added)

  unfoldable pub read_staged : Client → ℕ → R → (Option Bytes × ℕ) × R
  read_staged c round r = refreshed c (as_bytes (db.get (staged round) r)) r

  unfoldable pub read_committed : Client → ℕ → R → (Option ℕ × ℕ) × R
  read_committed c round r = refreshed c (as_number (db.get (committed_cnt round) r)) r

  unfoldable pub acknowledge : Client → ℕ → R → (ℕ × ℕ) × R
  acknowledge c round r =
      let counted = db.incr (committed_cnt round) r in refreshed c counted.0 counted.1

  unfoldable pub read_round : Client → R → Option ℕ × R
  read_round c r = (as_number (db.get round_ctr r), stay c (expire c r))

  unfoldable pub refresh_client : Client → R → (Option ℕ × ℕ) × R
  refresh_client c r =
      let added = stay c (expire c r) in
      ((as_number (db.get round_ctr added), db.zcard added), added)
