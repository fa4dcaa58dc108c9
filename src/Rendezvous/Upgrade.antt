-- ===== src/Rendezvous/Upgrade.antt =====
-- `UpgradeEitherConn`: a connection that changes its stack when it is told a new nonce. It is used by one
-- task at a time: a `send` and a `recv` come one after another.
use tbm.Prelude.{
  Bool, true, false, List, [], ◌∷◌, Option, none, some, if◌then◌else◌, eyre, Result, ok, err, wrap,
  ◌>>=◌, Outcome, returns, panics,
}
use tbm.Negotiate.Types.{StackNonce, Side, left, Stack, Picked}
use tbm.Negotiate.Apply.{ApplyResult, apply}
use tbm.Rendezvous.Effects.{M, wrap_outcome}
use tbm.Rendezvous.Handles.{nonce_eq}

-- The future of a `try_upgrade`: an `async` block that is polled after its end panics.
pub data TryUpgrade : Type 0 where
  not_started : StackNonce → TryUpgrade
  finished : TryUpgrade

-- `listener` is the watch channel for nonces, with `has_changed` and whether its sender is there.
-- `stack_changed` is the value of the channel that the handle reads.
pub record UpgradeConn : Type 0 where
  pub current : Picked
  pub listener : StackNonce
  pub has_changed : Bool
  pub sender_dropped : Bool
  pub curr_nonce : StackNonce
  pub in_progress : Option TryUpgrade
  pub stack_changed : Option Side

-- The side of an `Either`.
abbrev pub side_of : Picked → Option Side
side_of (Picked.either s p) = some s
side_of p = none

-- `UpgradeSelect::apply` and `UpgradeEitherApply::connect_wrap`: the handle is told the side that is
-- applied, and the watch channel is as the handle has left it.
abbrev pub new_conn : StackNonce → Bool → ApplyResult → UpgradeConn
new_conn listener has_changed ar = record {
  current = ar.applied;
  listener = listener;
  has_changed = has_changed;
  sender_dropped = false;
  curr_nonce = ar.picked;
  in_progress = none;
  stack_changed = side_of ar.applied;
}

-- A new value on the watch channel.
abbrev pub told : StackNonce → UpgradeConn → UpgradeConn
told nonce cn = record cn { listener = nonce; has_changed = true }

abbrev pub start_upgrade : StackNonce → UpgradeConn → UpgradeConn
start_upgrade v cn = record cn { curr_nonce = v; in_progress = some (not_started v) }

-- `borrow_and_update`, and a new future where the nonce is another than the last one.
abbrev pub take_up : UpgradeConn → UpgradeConn
take_up cn =
    let seen = record cn { has_changed = false } in
    if nonce_eq cn.listener cn.curr_nonce then seen else start_upgrade cn.listener seen

-- The first part of `send`.
unfoldable pub check_listener : Option TryUpgrade → UpgradeConn → Result UpgradeConn
check_listener (some f) cn = ok cn
check_listener none cn =
    if cn.sender_dropped
    then err (eyre "channel closed")
    else ok (if cn.has_changed then take_up cn else cn)

-- `UpgradeEitherConn::drop`
unfoldable pub drop_conn : UpgradeConn → UpgradeConn
drop_conn cn = record cn { stack_changed = none }

-- How the future of a `recv` stands or ends.
pub data RecvRun (D : Type 0) : Type 0 where
  receiving : UpgradeConn → RecvRun D
  recv_ended : Outcome (List D) → UpgradeConn → RecvRun D

-- What happens while a `recv` waits: the current connection hands over its slots; the connection has
-- nothing yet and the other future of the `select` runs; a new nonce; the end of its sender.
pub data RecvEvent (D : Type 0) : Type 0 where
  received : Outcome (List (Option D)) → RecvEvent D
  pending : RecvEvent D
  tells : StackNonce → RecvEvent D
  drops_sender : RecvEvent D

-- `map_while(Option::take)`
abbrev pub taken : {D : Type 0} → List (Option D) → List D
taken [] = []
taken (none ∷ slots) = []
taken (some d ∷ slots) = d ∷ taken slots

abbrev pub taken_from : {D : Type 0} → Outcome (List (Option D)) → Outcome (List D)
taken_from panics = panics
taken_from (returns (err e)) = returns (err e)
taken_from (returns (ok slots)) = returns (ok (taken slots))

-- The loop that `upgrade_fut` makes before it waits for the listener again.
abbrev pub listen : Option TryUpgrade → UpgradeConn → Result UpgradeConn
listen (some f) cn = ok cn
listen none cn =
    if cn.has_changed
    then ok (take_up cn)
    else if cn.sender_dropped
    then wrap "sender dropped" (err (eyre "channel closed"))
    else ok cn

abbrev pub after_upgrade :
    {D : Type 0} → Outcome (Unit {0}) × UpgradeConn → (UpgradeConn → RecvRun D) → RecvRun D
after_upgrade (returns (ok u), cn) again = again cn
after_upgrade (returns (err e), cn) again = recv_ended (returns (err e)) cn
after_upgrade (panics, cn) again = recv_ended panics cn

module _ (l r : Stack) (connect_wrap : Picked → Result (Unit {0})) where
  unfoldable pub connect_upgraded : Side → StackNonce → StackNonce → Bool → Result UpgradeConn
  connect_upgraded prefer picked_offers listener has_changed = do
    ar ← apply (Stack.select l r prefer) picked_offers
    _ ← connect_wrap ar.applied
    ok (new_conn listener has_changed ar)

  -- The new connection that `try_upgrade` makes.
  abbrev pub new_current : StackNonce → Result Picked
  new_current new_offers = do
    ar ← apply (Stack.select l r left) new_offers
    _ ← connect_wrap ar.applied
    ok ar.applied

  abbrev pub replace_current : Result Picked → UpgradeConn → Outcome (Unit {0}) × UpgradeConn
  replace_current (ok new) cn = (
    returns (ok tt),
    record cn { current = new; stack_changed = side_of new; in_progress = none },
  )
  replace_current (err e) cn = (returns (err e), record cn { in_progress = some finished })

  -- The future is awaited, and forgotten where it succeeds.
  unfoldable pub try_upgrade : Option TryUpgrade → UpgradeConn → Outcome (Unit {0}) × UpgradeConn
  try_upgrade none cn = (returns (ok tt), cn)
  try_upgrade (some (not_started v)) cn = replace_current (new_current v) cn
  try_upgrade (some finished) cn = (panics, cn)

  module _ {W D : Type 0} (send_on : Picked → List D → M W (Unit {0})) where
    abbrev pub check_and_upgrade :
        Result UpgradeConn → UpgradeConn → Outcome (Unit {0}) × UpgradeConn
    check_and_upgrade (err e) before = (returns (err e), before)
    check_and_upgrade (ok cn) before = try_upgrade cn.in_progress cn

    abbrev pub send_current :
        List D → Outcome (Unit {0}) × UpgradeConn → W → Outcome (Unit {0}) × (UpgradeConn × W)
    send_current burst (returns (ok u), cn) w =
        let sent = send_on cn.current burst w in (sent.0, (cn, sent.1))
    send_current burst (returns (err e), cn) w = (returns (err e), (cn, w))
    send_current burst (panics, cn) w = (panics, (cn, w))

    unfoldable pub send : List D → M (UpgradeConn × W) (Unit {0})
    send burst (cn, w) =
        send_current burst (check_and_upgrade (check_listener cn.in_progress cn) cn) w

  abbrev pub wrapped : Outcome (Unit {0}) × UpgradeConn → Outcome (Unit {0}) × UpgradeConn
  wrapped (out, cn) = (wrap_outcome "UpgradeEitherConn could not apply new stack" out, cn)

  -- `upgrade_fut`, and the upgrade where it is ready; else the `select` waits on.
  abbrev pub other_branch : Result UpgradeConn → UpgradeConn → Outcome (Unit {0}) × UpgradeConn
  other_branch (err e) before = (returns (err e), before)
  other_branch (ok cn) before = wrapped (try_upgrade cn.in_progress cn)

  module _ {D : Type 0} where
    unfoldable pub recv : List (RecvEvent D) → UpgradeConn → RecvRun D
    recv [] cn = receiving cn
    recv (received slots ∷ events) cn = recv_ended (taken_from slots) cn
    recv (pending ∷ events) cn =
        after_upgrade (other_branch (listen cn.in_progress cn) cn) (recv events)
    recv (tells nonce ∷ events) cn = recv events (told nonce cn)
    recv (drops_sender ∷ events) cn = recv events (record cn { sender_dropped = true })
