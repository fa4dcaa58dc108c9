-- ===== src/Rendezvous/InStep.antt =====
-- Which stack an `UpgradeEitherConn` uses: the one that its nonce names.
use tbm.Prelude.{
  ◌≡◌, refl, subst, Bool, true, false, List, [], ◌∷◌, Option, none, some, Result, ok, err, Outcome,
  returns, panics, ◌⊎◌, inl, inr, if◌then◌else◌, ap, sym, Report,
}
use tbm.Negotiate.Types.{StackNonce, Side, Stack, Picked}
use tbm.Rendezvous.Effects.{M}
use tbm.Rendezvous.Handles.{nonce_eq}
use tbm.Rendezvous.Upgrade.{
  TryUpgrade, not_started, finished, UpgradeConn, side_of, told, take_up, start_upgrade,
  check_listener, RecvRun, receiving, recv_ended, RecvEvent, received, pending, tells, drops_sender,
  listen, after_upgrade, new_current, replace_current, try_upgrade, check_and_upgrade, send_current,
  send, other_branch, recv,
}

abbrev pub OkHolds : {A : Type 0} → (A → Type 0) → Result A → Type 0
OkHolds P (ok a) = P a
OkHolds P (err e) = Unit

-- The connection when a `recv` has ended, or is dropped where it stands.
abbrev pub conn_of : {D : Type 0} → RecvRun D → UpgradeConn
conn_of (receiving cn) = cn
conn_of (recv_ended out cn) = cn

abbrev pub Reports : Bool → Option Side → Option Side → Type 0
Reports false told_side side = told_side ≡ side
Reports true told_side side = (told_side ≡ side) ⊎ (told_side ≡ none)

pub told_its_side : (gone : Bool) (side : Option Side) → Reports gone side side
told_its_side false side = refl
told_its_side true side = inl refl

module _ (l r : Stack) (connect_wrap : Picked → Result (Unit {0})) (first : UpgradeConn)
    (gone : Bool) where
  -- By what is in progress: the current stack is the first one, with the first nonce, or the one that the
  -- current nonce names; a future that is to be awaited is for the current nonce.
  abbrev pub UsesNonce : Option TryUpgrade → StackNonce → Picked → Type 0
  UsesNonce none nonce current =
      ((nonce ≡ first.curr_nonce) × (current ≡ first.current))
      ⊎ (new_current l r connect_wrap nonce ≡ ok current)
  UsesNonce (some (not_started v)) nonce current = v ≡ nonce
  UsesNonce (some finished) nonce current = Unit

  -- The handle is told the side in use; where a clone of the connection is gone, the side in use or
  -- nothing.
  pub record IsInStep (cn : UpgradeConn) : Type 0 where
    pub uses : UsesNonce cn.in_progress cn.curr_nonce cn.current
    pub reports : Reports gone cn.stack_changed (side_of cn.current)

  seen-IsInStep :
      (same : Bool) (cn : UpgradeConn)
      → IsInStep cn
      → IsInStep (
          let seen = record cn { has_changed = false } in
          if same then seen else start_upgrade cn.listener seen)
  seen-IsInStep true cn k = record { uses = k.uses; reports = k.reports }
  seen-IsInStep false cn k = record { uses = refl; reports = k.reports }

  take_up-IsInStep : (cn : UpgradeConn) → IsInStep cn → IsInStep (take_up cn)
  take_up-IsInStep cn k = seen-IsInStep (nonce_eq cn.listener cn.curr_nonce) cn k

  heard-IsInStep :
      (dropped changed : Bool) (e : Report) (cn : UpgradeConn)
      → IsInStep cn
      → OkHolds IsInStep (if dropped then err e else ok (if changed then take_up cn else cn))
  heard-IsInStep true changed e cn k = tt
  heard-IsInStep false true e cn k = take_up-IsInStep cn k
  heard-IsInStep false false e cn k = k

  pub check-IsInStep :
      (o : Option TryUpgrade) (cn : UpgradeConn)
      → IsInStep cn
      → OkHolds IsInStep (check_listener o cn)
  unfolding check_listener
  check-IsInStep (some f) cn k = k
  check-IsInStep none cn k = heard-IsInStep cn.sender_dropped cn.has_changed _ cn k

  listened-IsInStep :
      (changed dropped : Bool) (e : Report) (cn : UpgradeConn)
      → IsInStep cn
      → OkHolds IsInStep (if changed then ok (take_up cn) else if dropped then err e else ok cn)
  listened-IsInStep true dropped e cn k = take_up-IsInStep cn k
  listened-IsInStep false true e cn k = tt
  listened-IsInStep false false e cn k = k

  pub listen-IsInStep :
      (o : Option TryUpgrade) (cn : UpgradeConn) → IsInStep cn → OkHolds IsInStep (listen o cn)
  listen-IsInStep (some f) cn k = k
  listen-IsInStep none cn k = listened-IsInStep cn.has_changed cn.sender_dropped _ cn k

  replace-IsInStep :
      (out : Result Picked) (cn : UpgradeConn)
      → new_current l r connect_wrap cn.curr_nonce ≡ out
      → IsInStep cn
      → IsInStep (replace_current l r connect_wrap out cn).1
  replace-IsInStep (ok p) cn e k = record { uses = inr e; reports = told_its_side gone (side_of p) }
  replace-IsInStep (err report) cn e k = record { uses = tt; reports = k.reports }

  try-IsInStep :
      (o : Option TryUpgrade) (cn : UpgradeConn)
      → cn.in_progress ≡ o
      → IsInStep cn
      → IsInStep (try_upgrade l r connect_wrap o cn).1
  unfolding try_upgrade
  try-IsInStep none cn e k = k
  try-IsInStep (some finished) cn e k = k
  try-IsInStep (some (not_started v)) cn e k =
      let named : v ≡ cn.curr_nonce = subst (λ o. UsesNonce o cn.curr_nonce cn.current) e k.uses in
      replace-IsInStep (new_current l r connect_wrap v) cn
        (ap (new_current l r connect_wrap) (sym named)) k

  module _ {W D : Type 0} (send_on : Picked → List D → M W (Unit {0})) where
    send_current-IsInStep :
        (burst : List D) (out : Outcome (Unit {0}) × UpgradeConn) (w : W)
        → IsInStep out.1
        → IsInStep (send_current l r connect_wrap send_on burst out w).1.0
    send_current-IsInStep burst (returns (ok u), cn) w k = k
    send_current-IsInStep burst (returns (err e), cn) w k = k
    send_current-IsInStep burst (panics, cn) w k = k

    upgraded-IsInStep :
        (checked : Result UpgradeConn) (before : UpgradeConn)
        → IsInStep before
        → OkHolds IsInStep checked
        → IsInStep (check_and_upgrade l r connect_wrap send_on checked before).1
    upgraded-IsInStep (err e) before k c = k
    upgraded-IsInStep (ok cn) before k c = try-IsInStep cn.in_progress cn refl c

    pub send-IsInStep :
        (burst : List D) (cn : UpgradeConn) (w : W)
        → IsInStep cn
        → IsInStep (send l r connect_wrap send_on burst (cn, w)).1.0
    unfolding send
    send-IsInStep burst cn w k =
        send_current-IsInStep burst
          (check_and_upgrade l r connect_wrap send_on (check_listener cn.in_progress cn) cn) w
          (upgraded-IsInStep (check_listener cn.in_progress cn) cn k
            (check-IsInStep cn.in_progress cn k))

  branch-IsInStep :
      (listened : Result UpgradeConn) (before : UpgradeConn)
      → IsInStep before
      → OkHolds IsInStep listened
      → IsInStep (other_branch l r connect_wrap listened before).1
  branch-IsInStep (err e) before k c = k
  branch-IsInStep (ok cn) before k c = try-IsInStep cn.in_progress cn refl c

  module _ {D : Type 0} where
    after_upgrade-IsInStep :
        (out : Outcome (Unit {0}) × UpgradeConn) (again : UpgradeConn → RecvRun D)
        → ((cn : UpgradeConn) → IsInStep cn → IsInStep (conn_of (again cn)))
        → IsInStep out.1
        → IsInStep (conn_of (after_upgrade out again))
    after_upgrade-IsInStep (returns (ok u), cn) again f k = f cn k
    after_upgrade-IsInStep (returns (err e), cn) again f k = k
    after_upgrade-IsInStep (panics, cn) again f k = k

    pub recv-IsInStep :
        (events : List (RecvEvent D)) (cn : UpgradeConn)
        → IsInStep cn
        → IsInStep (conn_of (recv l r connect_wrap events cn))
    unfolding recv
    recv-IsInStep [] cn k = k
    recv-IsInStep (received slots ∷ events) cn k = k
    recv-IsInStep (tells nonce ∷ events) cn k =
        recv-IsInStep events (told nonce cn) (record { uses = k.uses; reports = k.reports })
    recv-IsInStep (drops_sender ∷ events) cn k =
        recv-IsInStep events (record cn { sender_dropped = true })
          (record { uses = k.uses; reports = k.reports })
    recv-IsInStep (pending ∷ events) cn k =
        after_upgrade-IsInStep (other_branch l r connect_wrap (listen cn.in_progress cn) cn)
          (recv l r connect_wrap events) (recv-IsInStep events)
          (branch-IsInStep (listen cn.in_progress cn) cn k (listen-IsInStep cn.in_progress cn k))
