-- ===== src/Rendezvous/Steps.antt =====
-- What `send`s and `recv`s do one after another with an `UpgradeEitherConn`.
use tbm.Prelude.{
  >>=-eq-ok, ok-injective, ◌∙◌, ◌≡◌, refl, ap, sym, subst, Bool, true, false, List, none, Result,
  ok, inl, inr, ◌∙◌,
}
use tbm.Negotiate.Types.{StackNonce, Side, Stack, Picked}
use tbm.Negotiate.Apply.{apply}
use tbm.Rendezvous.Effects.{M}
use tbm.Rendezvous.Upgrade.{
  UpgradeConn, side_of, told, check_listener, RecvEvent, listen, new_conn, connect_upgraded, send,
  recv, drop_conn,
}
use tbm.Rendezvous.InStep.{
  IsInStep, send-IsInStep, recv-IsInStep, conn_of, check-IsInStep, OkHolds, listen-IsInStep,
  UsesNonce,
}

module _ (l r : Stack) (connect_wrap : Picked → Result (Unit {0})) {W D : Type 0}
    (send_on : Picked → List D → M W (Unit {0})) where
  -- A `send` or `recv` that ends, or that is dropped while it waits for the upgrade; a new nonce; the
  -- end of its sender.
  pub data ConnStep : UpgradeConn → UpgradeConn → Type 0 where
    sends :
        (cn : UpgradeConn) (burst : List D) (w : W)
        → ConnStep cn (send l r connect_wrap send_on burst (cn, w)).1.0
    receives :
        (cn : UpgradeConn) (events : List (RecvEvent D))
        → ConnStep cn (conn_of (recv l r connect_wrap events cn))
    drops_send :
        (cn cn' : UpgradeConn) → check_listener cn.in_progress cn ≡ ok cn' → ConnStep cn cn'
    drops_recv : (cn cn' : UpgradeConn) → listen cn.in_progress cn ≡ ok cn' → ConnStep cn cn'
    hears : (cn : UpgradeConn) (nonce : StackNonce) → ConnStep cn (told nonce cn)
    loses_sender : (cn : UpgradeConn) → ConnStep cn (record cn { sender_dropped = true })

  -- The steps of one task after another, on the clones of a connection, which share it; `gone` says
  -- whether a clone has been dropped.
  pub data ConnSteps : Bool → UpgradeConn → UpgradeConn → Type 0 where
    start : (cn : UpgradeConn) → ConnSteps false cn cn
    next :
        (gone : Bool) (a b c : UpgradeConn) → ConnSteps gone a b → ConnStep b c → ConnSteps gone a c
    drops_clone :
        (gone : Bool) (a b : UpgradeConn) → ConnSteps gone a b → ConnSteps true a (drop_conn b)

  OkHolds-ok :
      (P : UpgradeConn → Type 0) (res : Result UpgradeConn) (cn : UpgradeConn)
      → res ≡ ok cn
      → OkHolds P res
      → P cn
  OkHolds-ok P res cn e held = subst (OkHolds P) e held

  step-IsInStep :
      (first : UpgradeConn) (gone : Bool) (a b : UpgradeConn)
      → ConnStep a b
      → IsInStep l r connect_wrap first gone a
      → IsInStep l r connect_wrap first gone b
  step-IsInStep first gone a b (ConnStep.sends cn burst w) k =
      send-IsInStep l r connect_wrap first gone send_on burst a w k
  step-IsInStep first gone a b (ConnStep.receives cn events) k =
      recv-IsInStep l r connect_wrap first gone events a k
  step-IsInStep first gone a b (ConnStep.drops_send cn cn' e) k =
      OkHolds-ok (IsInStep l r connect_wrap first gone) _ b e
        (check-IsInStep l r connect_wrap first gone a.in_progress a k)
  step-IsInStep first gone a b (ConnStep.drops_recv cn cn' e) k =
      OkHolds-ok (IsInStep l r connect_wrap first gone) _ b e
        (listen-IsInStep l r connect_wrap first gone a.in_progress a k)
  step-IsInStep first gone a b (ConnStep.hears cn nonce) k = record {
    uses = k.uses;
    reports = k.reports;
  }
  step-IsInStep first gone a b (ConnStep.loses_sender cn) k = record {
    uses = k.uses;
    reports = k.reports;
  }

  steps-IsInStep :
      (first : UpgradeConn) (gone : Bool) (cn : UpgradeConn)
      → ConnSteps gone first cn
      → first.in_progress ≡ none
      → first.stack_changed ≡ side_of first.current
      → IsInStep l r connect_wrap first gone cn
  unfolding drop_conn
  steps-IsInStep first _ cn (ConnSteps.start _) idle reports = record {
    uses =
        subst (λ o. UsesNonce l r connect_wrap first false o first.curr_nonce first.current)
          (sym idle) (inl (refl, refl));
    reports = reports;
  }
  steps-IsInStep first gone cn (ConnSteps.next _ _ b _ steps step) idle reports =
      step-IsInStep first gone b cn step (steps-IsInStep first gone b steps idle reports)
  steps-IsInStep first _ cn (ConnSteps.drops_clone gone _ b steps) idle reports = record {
    uses = (steps-IsInStep first gone b steps idle reports).uses;
    reports = inr refl;
  }

  -- However a connection that `connect_upgraded` made is used, by one task at a time: it uses the first
  -- stack, or the one that its nonce names, unless an upgrade is in progress or has failed; an upgrade
  -- in progress is for its nonce; and the handle is told the side in use or, where a clone of the
  -- connection has been dropped, that side or nothing.
  pub connected-IsInStep :
      (prefer : Side) (picked_offers listener : StackNonce) (changed : Bool) (first : UpgradeConn)
      (gone : Bool) (cn : UpgradeConn)
      → connect_upgraded l r connect_wrap prefer picked_offers listener changed ≡ ok first
      → ConnSteps gone first cn
      → IsInStep l r connect_wrap first gone cn
  unfolding connect_upgraded
  connected-IsInStep prefer picked_offers listener changed first gone cn made steps =
      let (ar, applies, e) = >>=-eq-ok (apply (Stack.select l r prefer) picked_offers) _ made in
      let (u, connects, e') = >>=-eq-ok (connect_wrap ar.applied) _ e in
      let same : new_conn listener changed ar ≡ first = ok-injective _ _ e' in
      steps-IsInStep first gone cn steps (ap (λ c. c.in_progress) (sym same))
        (sym (ap (λ c. c.stack_changed) same) ∙ ap (λ c. side_of c.current) same)
