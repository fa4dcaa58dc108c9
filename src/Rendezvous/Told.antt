-- ===== src/Rendezvous/Told.antt =====
-- What the connections of a handle are told: only stacks that the handle can switch to.
use tbm.Prelude.{
  ℕ, zero, suc, ◌≡◌, true, List, [], ◌∷◌, map, Option, All, ◌⊎◌, inl, inr, Bool-cases,
}
use tbm.Negotiate.Types.{StackNonce, Side}
use tbm.Rendezvous.Backend.{Backend}
use tbm.Rendezvous.Handles.{UpgradeHandle, nonce_eq, check_compatibility, switch_to_stack}
use tbm.Rendezvous.Monitor.{StackUpgradeHandle, switch_compatible}
use tbm.Rendezvous.Loop.{LoopEvent, set_current, monitor_connection_negotiation_state}
use tbm.Rendezvous.Preserved.{monitor-stable}

-- A handle's nonce is the default one, from before anything was sent, or one it can switch to.
abbrev pub IsSafe : UpgradeHandle → Type 0
IsSafe uh = (uh.triggered ≡ []) ⊎ (check_compatibility uh uh.triggered ≡ true)

switch-IsSafe :
    (entry : StackNonce) (uh : UpgradeHandle) → IsSafe uh → IsSafe (switch_compatible entry uh)
unfolding switch_to_stack check_compatibility
switch-IsSafe entry uh safe = elim (Bool-cases (check_compatibility uh entry)) [
  | inr other ↦ rw other safe
  | inl fits ↦ rw fits (elim (Bool-cases (nonce_eq uh.triggered entry)) [
    | inl known ↦ rw known safe
    | inr new ↦ rw new (inr fits)
  ])
]

switch-AllSafe :
    (entry : StackNonce) (uhs : List UpgradeHandle)
    → All IsSafe uhs
    → All IsSafe (map (switch_compatible entry) uhs)
switch-AllSafe entry [] safe = tt
switch-AllSafe entry (uh ∷ uhs) safe =
    (switch-IsSafe entry uh safe.0, switch-AllSafe entry uhs safe.1)

set_current-AllSafe :
    (idx : ℕ) (side : Option Side) (uhs : List UpgradeHandle)
    → All IsSafe uhs
    → All IsSafe (set_current idx side uhs)
unfolding check_compatibility
set_current-AllSafe idx side [] safe = tt
set_current-AllSafe zero side (uh ∷ uhs) safe = safe
set_current-AllSafe (suc idx) side (uh ∷ uhs) safe =
    (safe.0, set_current-AllSafe idx side uhs safe.1)

-- Whatever happens to the task, each handle's connections have been told nothing yet, or last a
-- stack that the handle can switch to, if that was so before.
pub monitor-IsSafe :
    {S : Type 0} (b : Backend S) (events : List (LoopEvent S)) (h : StackUpgradeHandle) (s : S)
    → All IsSafe h.upgrade_handles
    → All IsSafe (monitor_connection_negotiation_state b events h s).monitor.upgrade_handles
monitor-IsSafe b events h s safe =
    monitor-stable
      (record {
        counts = λ h num round p. p;
        notes = λ h num p. p;
        commits = λ h entry round c p. switch-AllSafe entry h.upgrade_handles p;
        moves = λ h idx side p. set_current-AllSafe idx side h.upgrade_handles p;
      })
      b events h s safe
