-- ===== src/Rendezvous/Start.antt =====
-- `negotiate_rendezvous`: an endpoint joins the connection at an address.
use tbm.Prelude.{
  ℕ, ◌+◌, Bool, true, false, List, [], Option, none, some, Bytes, eyre, wrap_err, Result, ok, err,
  wrap, Outcome, returns, panics,
}
use tbm.Negotiate.Types.{StackNonce, Side, Stack, Picked}
use tbm.Negotiate.Offers.{offers}
use tbm.Negotiate.Apply.{ApplyResult, apply}
use tbm.Negotiate.Monomorphize.{monomorphize}
use tbm.Negotiate.Client.{client_picked}
use tbm.Rendezvous.Effects.{M, ◌>>=◌, ◌>>◌, return, lift, wrap_outcome, wrap_call}
use tbm.Rendezvous.Backend.{RendezvousEntry, RendezvousResult, matched, no_match, Backend}
use tbm.Rendezvous.Stacks.{UpgradeStack, inner, collect_handles, prefer}

-- "Negotiate" against ourselves for a nonce. `empty` is the serialised empty string.
unfoldable pub solo_monomorphize : Stack → Result Bytes → Outcome StackNonce
solo_monomorphize stack empty = client_picked (monomorphize stack (offers stack) empty)

-- The connection's stack, with what its `StackUpgradeHandle` starts from.
pub record Joined : Type 0 where
  pub entry : RendezvousEntry
  pub applied : Picked
  pub round_number : ℕ

-- An `apply` with `?`, and with `expect`.
abbrev pub applied_or_fails : {S : Type 0} → Result ApplyResult → M S Picked
applied_or_fails (ok ar) = return ar.applied
applied_or_fails (err e) = lift (returns (err e))

abbrev pub expected : {S : Type 0} → Result ApplyResult → M S Picked
expected (ok ar) = return ar.applied
expected (err e) = lift panics

-- The entry that a poll after the transition finds, or the one proposed.
abbrev pub polled_entry : RendezvousResult → RendezvousEntry → RendezvousEntry
polled_entry (no_match entry num round) picked = entry
polled_entry (matched num round) picked = picked

module _ {S : Type 0} (b : Backend S) (empty : Result Bytes) where
  abbrev pub joined_with : StackNonce → ℕ → Picked → M S Joined
  joined_with entry round applied =
      return (record { entry = entry; applied = applied; round_number = round })

  -- Case 1: the selector changed a preference, and the endpoint proposes its stack, then applies what a
  -- poll finds.
  abbrev pub apply_polled : Stack → StackNonce → ℕ → RendezvousResult → M S Joined
  apply_polled stack picked round r = do
    applied ←
        applied_or_fails (wrap "post-transition apply failed" (apply stack (polled_entry r picked)))
    joined_with picked round applied

  abbrev pub poll_proposed : Stack → StackNonce → ℕ → M S Joined
  poll_proposed stack picked round = do r ← b.poll_entry [] round; apply_polled stack picked round r

  abbrev pub propose : Stack → StackNonce → M S Joined
  propose stack picked = do
    round ← wrap_call "Transition failed" (b.transition picked)
    poll_proposed stack picked round

  unfoldable pub join_changed : Stack → M S Joined
  join_changed stack = do
    picked ← lift (wrap_outcome "Malformed chunnel stack" (solo_monomorphize stack empty))
    propose stack picked

  -- Case 2: the endpoint did not join, and takes the stack that is there or leaves.
  abbrev pub join_existing_applied : RendezvousEntry → ℕ → Result ApplyResult → M S Joined
  join_existing_applied existing round (err e) = do
    b.leave
    lift (returns (err (wrap_err e (eyre "could not apply remote stack"))))
  join_existing_applied existing round (ok ar) = do
    _ ← wrap_call "poll_entry to unlock join failed" (b.poll_entry existing round)
    joined_with existing round ar.applied

  unfoldable pub join_existing : Stack → RendezvousEntry → ℕ → M S Joined
  join_existing stack existing round = join_existing_applied existing round (apply stack existing)

  -- Case 3: the endpoint has joined with the stack that it picked.
  unfoldable pub join_matched : Stack → StackNonce → ℕ → M S Joined
  join_matched stack picked round = do
    applied ← expected (apply stack picked)
    joined_with picked round applied

  abbrev pub join_unchanged : Stack → StackNonce → ℕ → Option RendezvousEntry → M S Joined
  join_unchanged stack picked round (some existing) = join_existing stack existing round
  join_unchanged stack picked round none = join_matched stack picked round

  abbrev pub join : StackNonce → ℕ → Option RendezvousEntry → Bool × UpgradeStack → M S Joined
  join picked round entry (true, stack) = join_changed (inner stack)
  join picked round entry (false, stack) = join_unchanged (inner stack) picked round entry

-- `try_init` does not count an endpoint whose semantics did not match.
abbrev pub present_entry : RendezvousResult → Option RendezvousEntry
present_entry (matched num round) = none
present_entry (no_match entry num round) = some entry

abbrev pub participants : RendezvousResult → ℕ
participants (matched num round) = num
participants (no_match entry num round) = num + 1

abbrev pub round_of : RendezvousResult → ℕ
round_of (matched num round) = round
round_of (no_match entry num round) = round

-- What `StackUpgradeHandle::new` is given.
pub record Rendezvoused : Type 0 where
  pub joined : Joined
  pub handles : List ℕ
  pub offers : List StackNonce
  pub num_participants : ℕ

module _ {S : Type 0} (b : Backend S) (empty : Result Bytes)
    (connect_wrap : Picked → Outcome (Unit {0})) (selector : ℕ → ℕ → Option Side) where
  abbrev pub connect : UpgradeStack → RendezvousResult → Joined → M S Rendezvoused
  connect stack init joined = do
    lift (connect_wrap joined.applied)
    return (record {
      joined = joined;
      handles = collect_handles stack;
      offers = offers (inner stack);
      num_participants = participants init;
    })

  abbrev pub join_initialised : UpgradeStack → StackNonce → RendezvousResult → M S Rendezvoused
  join_initialised stack picked init = do
    joined ←
        join b empty picked (round_of init) (present_entry init)
          (prefer (participants init) selector stack)
    connect stack init joined

  abbrev pub initialise : UpgradeStack → StackNonce → M S Rendezvoused
  initialise stack picked = do
    init ← wrap_call "rendezvous backend try_init" (b.try_init picked)
    join_initialised stack picked init

  -- The offers and handles are collected before the preferences change, and the own choice is made.
  unfoldable pub negotiate_rendezvous : UpgradeStack → M S Rendezvoused
  negotiate_rendezvous stack = do
    picked ← lift (wrap_outcome "Malformed chunnel stack" (solo_monomorphize (inner stack) empty))
    initialise stack picked
