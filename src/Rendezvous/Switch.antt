-- ===== src/Rendezvous/Switch.antt =====
-- The `send` of an `UpgradeEitherConn` that has been told a new nonce.
use tbm.Prelude.{
  ◌≡◌, refl, ap, ◌∙◌, false, List, none, if◌then◌else◌, Result, ok, err, Report, eyre, Outcome,
  returns, panics,
}
use tbm.Negotiate.Types.{StackNonce, Stack, Picked}
use tbm.Rendezvous.Effects.{M}
use tbm.Rendezvous.Handles.{nonce_eq}
use tbm.Rendezvous.Upgrade.{
  UpgradeConn, told, take_up, start_upgrade, check_listener, new_current, replace_current,
  try_upgrade, check_and_upgrade, send_current, send,
}

-- The connection that awaits the upgrade to a new nonce.
abbrev upgrading : StackNonce → UpgradeConn → UpgradeConn
upgrading nonce cn = start_upgrade nonce (record (told nonce cn) { has_changed = false })

told_starts :
    (cn : UpgradeConn) (nonce : StackNonce)
    → cn.in_progress ≡ none
    → cn.sender_dropped ≡ false
    → nonce_eq nonce cn.curr_nonce ≡ false
    → check_listener cn.in_progress (told nonce cn) ≡ ok (upgrading nonce cn)
unfolding check_listener
told_starts cn nonce idle alive new =
    let seen = record (told nonce cn) { has_changed = false } in
    ap (λ o. check_listener o (told nonce cn)) idle
    ∙ ap (λ dropped. if dropped then err (eyre "channel closed") else ok (take_up (told nonce cn)))
        alive
    ∙ ap (λ same. ok (if same then seen else upgrading nonce cn)) new

module _ (l r : Stack) (connect_wrap : Picked → Result (Unit {0})) {W D : Type 0}
    (send_on : Picked → List D → M W (Unit {0})) where
  told-send_eq :
      (cn : UpgradeConn) (nonce : StackNonce) (burst : List D) (w : W) (out : Result Picked)
      → cn.in_progress ≡ none
      → cn.sender_dropped ≡ false
      → nonce_eq nonce cn.curr_nonce ≡ false
      → new_current l r connect_wrap nonce ≡ out
      → send l r connect_wrap send_on burst (told nonce cn, w)
        ≡ send_current l r connect_wrap send_on burst
            (replace_current l r connect_wrap out (upgrading nonce cn))
            w
  unfolding send try_upgrade
  told-send_eq cn nonce burst w out idle alive new made =
      let upgraded = check_and_upgrade l r connect_wrap send_on in
      let sent : Outcome (Unit {0}) × UpgradeConn → Outcome (Unit {0}) × (UpgradeConn × W) =
        λ up. send_current l r connect_wrap send_on burst up w in
      ap (λ checked. sent (upgraded checked (told nonce cn))) (told_starts cn nonce idle alive new)
      ∙ ap (λ new. sent (replace_current l r connect_wrap new (upgrading nonce cn))) made

  -- A connection that is told a new nonce, while no upgrade is in progress and its handle is there, sends the
  -- next burst on the stack that the nonce names, if that stack can be applied and connected.
  pub told-send :
      (cn : UpgradeConn) (nonce : StackNonce) (p : Picked) (burst : List D) (w : W)
      → cn.in_progress ≡ none
      → cn.sender_dropped ≡ false
      → nonce_eq nonce cn.curr_nonce ≡ false
      → new_current l r connect_wrap nonce ≡ ok p
      → (cn' : UpgradeConn) × (send l r connect_wrap send_on burst (told nonce cn, w)
          ≡ ((send_on p burst w).0, (cn', (send_on p burst w).1)))
        × (cn'.current ≡ p)
        × (cn'.curr_nonce ≡ nonce)
        × (cn'.in_progress ≡ none)
  told-send cn nonce p burst w idle alive new applied =
      (_, told-send_eq cn nonce burst w (ok p) idle alive new applied, refl, refl, refl)

  -- Where that stack cannot be applied or connected, the send fails with the same error and sends
  -- nothing; every later send panics, on the future that has ended.
  pub failed_upgrade_panics :
      (cn : UpgradeConn) (nonce : StackNonce) (e : Report) (burst later : List D) (w w' : W)
      → cn.in_progress ≡ none
      → cn.sender_dropped ≡ false
      → nonce_eq nonce cn.curr_nonce ≡ false
      → new_current l r connect_wrap nonce ≡ err e
      → (cn' : UpgradeConn) × (send l r connect_wrap send_on burst (told nonce cn, w)
          ≡ (returns (err e), (cn', w)))
        × (send l r connect_wrap send_on later (cn', w') ≡ (panics, (cn', w')))
  unfolding send try_upgrade check_listener
  failed_upgrade_panics cn nonce e burst later w w' idle alive new fails =
      (_, told-send_eq cn nonce burst w (err e) idle alive new fails, refl)
