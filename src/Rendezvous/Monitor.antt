-- ===== src/Rendezvous/Monitor.antt =====
-- `StackUpgradeHandle`: the task that follows the store, and changes the stack with the others.
use tbm.Prelude.{
  ℕ, ◌+◌, ◌==◌, ltb, Bool, true, false, List, map, if◌then◌else◌, ok, err, Outcome, returns, panics,
}
use tbm.Negotiate.Types.{StackNonce}
use tbm.Rendezvous.Effects.{M, ◌>>=◌, return, lift, on_second}
use tbm.Rendezvous.Backend.{RendezvousEntry, RendezvousResult, matched, no_match, Backend}
use tbm.Rendezvous.Handles.{
  UpgradeHandle, check_compatibility, switch_to_stack, find_stack_from_stub, any,
}

-- `participants` is the value of the watch channel for the number of participants.
pub record StackUpgradeHandle : Type 0 where
  pub upgrade_handles : List UpgradeHandle
  pub participants : ℕ
  pub offers : List StackNonce
  pub curr_entry : RendezvousEntry
  pub curr_num_participants : ℕ
  pub curr_round : ℕ

-- The handles that are compatible with a stack are told to switch to it.
abbrev pub switch_compatible : StackNonce → UpgradeHandle → UpgradeHandle
switch_compatible new_stack uh =
    if check_compatibility uh new_stack then switch_to_stack new_stack uh else uh

abbrev pub switch_handles : StackNonce → StackUpgradeHandle → StackUpgradeHandle
switch_handles new_stack h = record h {
  upgrade_handles = map (switch_compatible new_stack) h.upgrade_handles;
}

abbrev pub commit : RendezvousEntry → ℕ → StackUpgradeHandle → StackUpgradeHandle
commit entry round h = switch_handles entry (record h { curr_round = round; curr_entry = entry })

abbrev pub on_handle :
    {S : Type 0} → (StackUpgradeHandle → StackUpgradeHandle) → M (StackUpgradeHandle × S) (Unit {0})
on_handle f (h, s) = (returns (ok tt), (f h, s))

-- A round that is further than the next one is left to the next notification.
abbrev pub commit_round :
    {S : Type 0} → RendezvousEntry → ℕ → ℕ → M (StackUpgradeHandle × S) (Unit {0})
commit_round entry curr_round new_round =
    if ltb (curr_round + 1) new_round then return tt else on_handle (commit entry new_round)

abbrev pub compatible : RendezvousEntry → StackUpgradeHandle → Bool
compatible entry h = any (λ uh. check_compatibility uh entry) h.upgrade_handles

abbrev pub handle_matched : ℕ → ℕ → StackUpgradeHandle → StackUpgradeHandle
handle_matched num round h =
    if num == h.curr_num_participants
    then record h { curr_round = round }
    else record h { participants = num }

module _ {S : Type 0} (b : Backend S) where
  -- The debug assertion between the transition and the switch is left out, as in a release build.
  unfoldable pub handle_trigger :
      List StackNonce → List StackNonce → M (StackUpgradeHandle × S) (Unit {0})
  handle_trigger offers wanted = do
    full_stack ← lift (find_stack_from_stub wanted offers)
    new_round ← on_second (b.transition full_stack)
    on_handle (commit full_stack new_round)

  abbrev pub accept : RendezvousEntry → ℕ → M (StackUpgradeHandle × S) (Unit {0})
  accept entry round = do
    new_round ← on_second (b.staged_update round)
    commit_round entry round new_round

  -- A transition back to the stack in use.
  abbrev pub refuse : RendezvousEntry → M (StackUpgradeHandle × S) (Unit {0})
  refuse curr_entry = do
    new_round ← on_second (b.transition curr_entry)
    on_handle (λ h. record h { curr_round = new_round })

  abbrev pub answer_proposal :
      Bool → RendezvousEntry → ℕ → RendezvousEntry → M (StackUpgradeHandle × S) (Unit {0})
  answer_proposal true entry round curr_entry = accept entry round
  answer_proposal false entry round curr_entry = refuse curr_entry

  unfoldable pub handle_notify : Outcome RendezvousResult → M (StackUpgradeHandle × S) (Unit {0})
  handle_notify panics hs = (panics, hs)
  handle_notify (returns (err e)) hs = (returns (err e), hs)
  handle_notify (returns (ok (matched num round))) (h, s) =
      (returns (ok tt), (handle_matched num round h, s))
  handle_notify (returns (ok (no_match entry num round))) (h, s) =
      answer_proposal (compatible entry h) entry round h.curr_entry
        (record h { curr_num_participants = num; curr_round = round }, s)
