-- ===== src/Tests/Upgrading.antt =====
-- A connection that is told to change its tagger.
use tbm.Prelude.{
  ℕ, ◌≡◌, refl, true, false, List, [], ◌∷◌, ◌++◌, none, some, eyre, wrap_err, Report, Result, ok,
  err, returns, panics,
}
use tbm.Negotiate.Types.{StackNonce, Side, chunnel, Picked}
use tbm.Negotiate.Apply.{apply, apply_chunnel, check_apply, apply_in_preference_order}
use tbm.Rendezvous.Effects.{M}
use tbm.Rendezvous.Handles.{nonce_eq}
use tbm.Rendezvous.Upgrade.{UpgradeConn, connect_upgraded, drop_conn, told, new_current, send}
use tbm.Rendezvous.InStep.{IsInStep}
use tbm.Rendezvous.Steps.{start, next, drops_clone, sends, hears, connected-IsInStep}
use tbm.Rendezvous.Switch.{told-send, failed_upgrade_panics}
use tbm.Tests.Rendezvous.{first_nonce, second_nonce}
use tbm.Tests.Handshake.{tagger, other_tagger, ordering_offer}

abbrev wraps : Picked → Result (Unit {0})
wraps p = ok tt

-- What is sent is kept with the stack that it is sent on.
abbrev sends_on : Picked → List ℕ → M (List (Picked × List ℕ)) (Unit {0})
sends_on p burst log = (returns (ok tt), log ++ (p, burst) ∷ [])

-- A nonce that has been applied has no implementation left for the taggers' capability.
abbrev applied_nonce : StackNonce
applied_nonce = (11, ordering_offer 0) ∷ []

abbrev conn : UpgradeConn
conn = record {
  current = Picked.either Side.left (Picked.chunnel tagger);
  listener = [];
  has_changed = false;
  sender_dropped = false;
  curr_nonce = applied_nonce;
  in_progress = none;
  stack_changed = some Side.left;
}

abbrev second_stack : Picked
second_stack = Picked.either Side.right (Picked.chunnel other_tagger)

made :
    connect_upgraded (chunnel tagger) (chunnel other_tagger) wraps Side.left first_nonce [] false
    ≡ ok conn
unfolding connect_upgraded apply apply_chunnel check_apply apply_in_preference_order
made = refl

-- A send on the stack of a new nonce, then the end of a clone of the connection.
connected-IsInStep_example : IsInStep (chunnel tagger) (chunnel other_tagger) wraps conn true (
    drop_conn
      (send
        (chunnel tagger)
        (chunnel other_tagger)
        wraps
        sends_on
        (3 ∷ [])
        (told second_nonce conn, [])).1.0)
connected-IsInStep_example =
    connected-IsInStep (chunnel tagger) (chunnel other_tagger) wraps sends_on Side.left first_nonce
      [] false conn true _ made
      (drops_clone false conn _ (
        next false conn (told second_nonce conn) _
          (next false conn conn _ (start conn) (hears conn second_nonce))
          (sends (told second_nonce conn) (3 ∷ []) [])))

second_is_new : nonce_eq second_nonce applied_nonce ≡ false
unfolding nonce_eq
second_is_new = refl

-- The nonce of the stack in use is taken for a new one.
same_stack_is_new : nonce_eq first_nonce applied_nonce ≡ false
unfolding nonce_eq
same_stack_is_new = refl

second_applies :
    new_current (chunnel tagger) (chunnel other_tagger) wraps second_nonce ≡ ok second_stack
unfolding apply apply_chunnel check_apply apply_in_preference_order
second_applies = refl

told-send_example :
    (cn : UpgradeConn) × (send
        (chunnel tagger)
        (chunnel other_tagger)
        wraps
        sends_on
        (3 ∷ [])
        (told second_nonce conn, [])
      ≡ (returns (ok tt), (cn, (second_stack, 3 ∷ []) ∷ [])))
    × (cn.current ≡ second_stack)
    × (cn.curr_nonce ≡ second_nonce)
    × (cn.in_progress ≡ none)
told-send_example =
    told-send (chunnel tagger) (chunnel other_tagger) wraps sends_on conn second_nonce second_stack
      (3 ∷ []) [] refl refl second_is_new second_applies

-- A nonce without the capability of the taggers.
abbrev empty_nonce_error : Report
empty_nonce_error =
    wrap_err (eyre "Offer didn't contain needed capability guid")
      (eyre "Offer didn't contain needed capability guid")

empty_is_new : nonce_eq [] applied_nonce ≡ false
unfolding nonce_eq
empty_is_new = refl

empty_fails : new_current (chunnel tagger) (chunnel other_tagger) wraps [] ≡ err empty_nonce_error
unfolding apply apply_chunnel check_apply apply_in_preference_order
empty_fails = refl

failed_upgrade_panics_example :
    (cn : UpgradeConn) × (send
        (chunnel tagger)
        (chunnel other_tagger)
        wraps
        sends_on
        (3 ∷ [])
        (told [] conn, [])
      ≡ (returns (err empty_nonce_error), (cn, [])))
    × (send (chunnel tagger) (chunnel other_tagger) wraps sends_on (4 ∷ []) (cn, [])
        ≡ (panics, (cn, [])))
failed_upgrade_panics_example =
    failed_upgrade_panics (chunnel tagger) (chunnel other_tagger) wraps sends_on conn []
      empty_nonce_error (3 ∷ []) (4 ∷ []) [] [] refl refl empty_is_new empty_fails
