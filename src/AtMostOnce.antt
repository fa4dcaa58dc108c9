-- ===== src/AtMostOnce.antt =====
-- bertha/src/atmostonce.rs: `AtMostOnceCn`, which numbers what it sends and drops what it has received
-- before, within a time horizon. Addresses and instants are numbers; each reading of the clock
-- is an argument.
pub mod Window
pub mod Fresh
use tbm.Prelude.{
  ℕ, zero, suc, ◌+◌, ◌-◌, ◌%◌, ◌==◌, ltb, leb, Bool, true, false, List, [], ◌∷◌, map, Option, none,
  some, if◌then◌else◌, get, insert, set_contains, set_insert, Report, Result, ok, err,
}

-- The readings of the clock in one call of `is_new`: in `insert`, in `elapsed`, for the cutoff, and for the
-- last update.
pub record Readings : Type 0 where
  pub at_insert : ℕ
  pub at_elapsed : ℕ
  pub at_cutoff : ℕ
  pub at_update : ℕ

-- `RecvState`: a `BTreeMap` is a map whose first entry for a key counts.
pub record RecvState : Type 0 where
  pub last_update : Option ℕ
  pub deliver_times : List (ℕ × ℕ)
  pub delivered : List ℕ

abbrev pub new_state : RecvState
new_state = record { last_update = none; deliver_times = []; delivered = [] }

-- `split_off(&cutoff)`: the entries from the cutoff on.
unfoldable pub split_off : ℕ → List (ℕ × ℕ) → List (ℕ × ℕ)
split_off cutoff [] = []
split_off cutoff ((t, seq) ∷ m) =
    if leb cutoff t then (t, seq) ∷ split_off cutoff m else split_off cutoff m

-- `values().copied().collect()` into a set
unfoldable pub values : List (ℕ × ℕ) → List ℕ
values [] = []
values ((t, seq) ∷ m) = set_insert seq (values m)

-- The update itself.
unfoldable pub forget : RecvState → ℕ → Readings → RecvState
unfolding split_off values
forget s sunset r =
    let kept = split_off (r.at_cutoff - sunset) s.deliver_times in
    record { last_update = some r.at_update; deliver_times = kept; delivered = values kept }

abbrev pub update_since : Option ℕ → RecvState → ℕ → Readings → RecvState
update_since none s sunset r = record s { last_update = some r.at_update }
update_since (some t) s sunset r = if ltb sunset (r.at_elapsed - t) then forget s sunset r else s

unfoldable pub maybe_update : RecvState → ℕ → Readings → RecvState
unfolding forget
maybe_update s sunset r = update_since s.last_update s sunset r

-- `is_new`: whether the number has not been delivered, and the state after.
unfoldable pub is_new : RecvState → ℕ → ℕ → Readings → RecvState × Bool
unfolding maybe_update
is_new s seq sunset r = if set_contains s.delivered seq then (maybe_update s sunset r, false) else (
  maybe_update
      (record s {
        deliver_times = insert r.at_insert seq s.deliver_times;
        delivered = set_insert seq s.delivered;
      })
      sunset r,
  true,
)

-- The closure of `send`: the first number of an address is 1.
unfoldable pub tag {ℓ} : {D : Type ℓ} → List (ℕ × ℕ) → ℕ → D → List (ℕ × ℕ) × (ℕ × (ℕ × D))
tag next_seq addr body =
    let seq = (elim (get addr next_seq) [ none ↦ 0 | some n ↦ n ] + 1) % 4294967296 in
    (insert addr seq next_seq, (addr, (seq, body)))

-- `send`, with what goes to the inner connection.
unfoldable pub send {ℓ} :
    {D : Type ℓ} → List (ℕ × ℕ) → List (ℕ × D) → List (ℕ × ℕ) × List (ℕ × (ℕ × D))
unfolding tag
send next_seq [] = (next_seq, [])
send next_seq ((addr, body) ∷ burst) =
    let (next_seq', segment) = tag next_seq addr body in
    let (next_seq'', segments) = send next_seq' burst in (next_seq'', segment ∷ segments)

-- A received segment, with the readings of the clock while it is looked up.
abbrev pub Segment : Type 0 → Type 0
Segment D = record { addr : ℕ; seq : ℕ; body : D; clock : Readings }

abbrev pub States : Type 0
States = List (ℕ × RecvState)

-- The end of a `recv`: segments, an error of the inner connection, or a wait for another batch.
pub data Recv (D : Type 0) : Type 0 where
  handed_over : States → List (ℕ × D) → Recv D
  failed : States → Report → Recv D
  waits : States → Recv D

-- `entry(addr).or_default()`
abbrev pub or_default : Option RecvState → RecvState
or_default none = new_state
or_default (some s) = s

module _ {D : Type 0} where
  -- The loop over what was received, into the slots that are left.
  unfoldable pub take_new : ℕ → ℕ → States → List (Segment D) → States × List (ℕ × D)
  unfolding is_new
  take_new sunset slots m [] = (m, [])
  take_new sunset zero m (msg ∷ msgs) = (m, [])
  take_new sunset (suc slots) m (msg ∷ msgs) =
      let (s, new) = is_new (or_default (get msg.addr m)) msg.seq sunset msg.clock in
      let (m', out) =
        take_new sunset (if new then slots else suc slots) (insert msg.addr s m) msgs in
      (m', if new then (msg.addr, msg.body) ∷ out else out)

  abbrev pub if_any : States → List (ℕ × D) → Recv D → Recv D
  if_any m [] later = later
  if_any m (o ∷ out) later = handed_over m (o ∷ out)

  -- `recv` into `slots` slots, where the inner connection's next results are `batches`.
  unfoldable pub recv : ℕ → ℕ → States → List (Result (List (Segment D))) → Recv D
  unfolding take_new
  recv sunset slots m [] = waits m
  recv sunset slots m (err e ∷ batches) = failed m e
  recv sunset slots m (ok msgs ∷ batches) =
      let (m', out) = take_new sunset slots m msgs in
      let rest = recv sunset slots m' batches in if_any m' out rest
