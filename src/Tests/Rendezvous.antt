-- ===== src/Tests/Rendezvous.antt =====
-- Endpoints that meet at an address, after the tests of bertha/src/negotiate/rendezvous.rs.
use tbm.Prelude.{
  ℕ, ◌+◌, ◌≡◌, refl, true, false, List, [], ◌∷◌, All, some, if◌then◌else◌, eyre, ok, err, Outcome,
  returns, inl,
}
use tbm.Negotiate.Types.{StackNonce, Side}
use tbm.Rendezvous.Backend.{
  RendezvousEntry, RendezvousResult, matched, no_match, Backend, notify, returned, unchanged,
}
use tbm.Rendezvous.Handles.{
  UpgradeHandle, nonce_eq, check_compatibility, switch_to_stack, stack_pair_partial_valid,
  find_stack_from_stub,
}
use tbm.Rendezvous.Monitor.{StackUpgradeHandle, handle_trigger, handle_notify}
use tbm.Rendezvous.Loop.{
  LoopEvent, want_transition, notified, on_request, monitor_connection_negotiation_state,
}
use tbm.Rendezvous.Commits.{Refines, monitor-Refines}
use tbm.Rendezvous.Told.{IsSafe, monitor-IsSafe}
use tbm.Rendezvous.Failures.{is_ok, Kept, request-Kept}
use tbm.Rendezvous.Notices.{Same, Same-unchanged, notify_returns}
use tbm.Tests.Handshake.{ordering_offer}

-- A store with one entry, in which another endpoint follows at once: the entry, how many endpoints there
-- are, and the round.
pub record Store : Type 0 where
  pub entry : RendezvousEntry
  pub num : ℕ
  pub round : ℕ

abbrev poll : RendezvousEntry → ℕ → Store → Outcome RendezvousResult × Store
poll entry round s = (
  returns (
      ok
        (if nonce_eq entry s.entry then matched s.num s.round else no_match s.entry s.num s.round)),
  s,
)

abbrev pub store : Backend Store
store = record {
  try_init = λ entry. poll entry 0;
  poll_entry = poll;
  transition =
      λ entry s. (returns (ok (s.round + 2)), record s { entry = entry; round = s.round + 2 });
  staged_update = λ round s. (returns (ok (round + 1)), s);
  leave = λ s. (returns (ok tt), s);
}

abbrev pub first_nonce : StackNonce
first_nonce = (11, ordering_offer 5) ∷ []

abbrev pub second_nonce : StackNonce
second_nonce = (11, ordering_offer 6) ∷ []

abbrev handle : UpgradeHandle
handle = record {
  left_offers = first_nonce ∷ [];
  right_offers = second_nonce ∷ [];
  current = some Side.left;
  triggered = [];
}

abbrev task : StackUpgradeHandle
task = record {
  upgrade_handles = handle ∷ [];
  participants = 2;
  offers = first_nonce ∷ second_nonce ∷ [];
  curr_entry = first_nonce;
  curr_num_participants = 2;
  curr_round = 0;
}

abbrev pub shared : Store
shared = record { entry = first_nonce; num = 2; round = 0 }

-- The handle asks for its right side, and another endpoint proposes the left one again.
abbrev events : List (LoopEvent Store)
events =
    want_transition (λ s. s) 0 (second_nonce ∷ [])
    ∷ notified (λ entry round s. (returns (ok (no_match first_nonce 2 4)), s))
    ∷ []

abbrev after_events : StackUpgradeHandle
after_events = record task {
  upgrade_handles = record handle { triggered = first_nonce } ∷ [];
  curr_round = 5;
}

events_run : (monitor_connection_negotiation_state store events task shared).monitor ≡ after_events
unfolding monitor_connection_negotiation_state handle_trigger handle_notify find_stack_from_stub
    check_compatibility switch_to_stack stack_pair_partial_valid nonce_eq
events_run = refl

monitor-Refines_example :
    (log : List RendezvousEntry) × Refines log task
      (monitor_connection_negotiation_state store events task shared).monitor
monitor-Refines_example = monitor-Refines store events task shared

monitor-IsSafe_example :
    All IsSafe
      (monitor_connection_negotiation_state store events task shared).monitor.upgrade_handles
monitor-IsSafe_example = monitor-IsSafe store events task shared (inl refl, tt)

-- A store that refuses every transition.
abbrev refusing : Backend Store
refusing = record store { transition = λ entry s. (returns (err (eyre "refused")), s) }

-- After the failure, the poll finds a stack that the handle cannot switch to.
abbrev foreign : Store
foreign = record { entry = (13, ordering_offer 7) ∷ []; num = 2; round = 2 }

request_fails : is_ok (on_request refusing true (second_nonce ∷ []) task foreign).0 ≡ false
unfolding handle_trigger handle_notify find_stack_from_stub check_compatibility
    stack_pair_partial_valid nonce_eq
request_fails = refl

request-Kept_example : Kept task (on_request refusing true (second_nonce ∷ []) task foreign).1.0
request-Kept_example = request-Kept refusing true (second_nonce ∷ []) task foreign request_fails

-- An endpoint leaves during the second sleep.
abbrev endpoint_leaves : Store → Store
endpoint_leaves s = record s { num = 1; entry = first_nonce }

leaving_changes :
    (s : Store) → unchanged 2 (store.poll_entry first_nonce 0 (endpoint_leaves s)).0 ≡ false
unfolding nonce_eq
leaving_changes s = refl

leaving_shows : (s : Store) → ¬ Same 2 (store.poll_entry first_nonce 0 (endpoint_leaves s)).0
leaving_shows s same = cc (Same-unchanged 2 _ same, leaving_changes s)

first_polled : store.poll_entry first_nonce 0 shared ≡ (returns (ok (matched 2 0)), shared)
unfolding nonce_eq
first_polled = refl

notify_returns_example :
    (r : Outcome RendezvousResult) × (s : Store) × (notify store first_nonce 0
        ((λ s. s) ∷ endpoint_leaves ∷ [])
        shared
      ≡ returned r s)
    × (¬ Same 2 r)
notify_returns_example =
    notify_returns store first_nonce 0 2 ((λ s. s) ∷ []) [] endpoint_leaves shared shared
      first_polled leaving_shows
