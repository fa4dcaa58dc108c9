-- ===== src/Tests/Requests.antt =====
-- Requests that are sent reliably, after the test of kvstore/src/reliability.rs.
use tbm.Prelude.{ℕ, ◌≡◌, ◌++◌, refl, sym, subst, List, [], ◌∷◌, Memᴰ, ok, eyre}
use tbm.KvReliability.{
  KvReliability, Event, responses, timed_out, polled, recv_failed, waiting, returned, failed,
  aborted, register_all, accept_response, accept_responses, send_loop, send, recv, delivers,
}
use tbm.KvReliability.Answered.{Heard, IsNumbered}
use tbm.KvReliability.Returns.{send-Heard, arrivals}
use tbm.KvReliability.Numbered.{Reaches, send-IsNumbered}
use tbm.KvReliability.Handed.{send-recv, resends}

-- A message is its id.
abbrev field : ℕ → ℕ
field x = x

abbrev idle : KvReliability ℕ ℕ
idle = record {
  sends = [];
  next = 0;
  answered = [];
  dropped = [];
  closed = [];
  received = [];
  batches = [];
}

abbrev requests : List (ℕ × ℕ)
requests = (0, 21) ∷ (0, 22) ∷ []

-- The response to the second request is lost at first.
abbrev exchange : List (Event ℕ ℕ)
exchange =
    responses ((0, 21) ∷ []) ∷ polled ∷ timed_out (ok tt) ∷ responses ((0, 21) ∷ (0, 22) ∷ []) ∷ []

abbrev after_exchange : KvReliability ℕ ℕ
after_exchange = record {
  sends = [];
  next = 2;
  answered = 1 ∷ 0 ∷ [];
  dropped = [];
  closed = [];
  received = (0, 21) ∷ (0, 21) ∷ (0, 22) ∷ [];
  batches = requests ∷ requests ∷ [];
}

exchanged : send field requests (ok tt) idle exchange ≡ waiting after_exchange
unfolding send register_all send_loop accept_response accept_responses
exchanged = refl

exchange_returns :
    send field requests (ok tt) idle (exchange ++ polled ∷ [])
    ≡ returned (record after_exchange { closed = 0 ∷ 1 ∷ [] })
unfolding send register_all send_loop accept_response accept_responses
exchange_returns = refl

send-Heard_example : Heard field (0, 22) (arrivals (exchange ++ polled ∷ []))
send-Heard_example =
    send-Heard field requests (ok tt) idle (record after_exchange { closed = 0 ∷ 1 ∷ [] })
      (exchange ++ polled ∷ []) (0, 22) (refl, refl) exchange_returns (Memᴰ.tail (Memᴰ.head refl))

two_received :
    recv 2 after_exchange
    ≡ delivers ((0, 21) ∷ (0, 21) ∷ []) (record after_exchange { received = (0, 22) ∷ [] })
unfolding recv
two_received = refl

send-recv_example :
    ((0, 21) ∷ (0, 21) ∷ (0, 22) ∷ [] ≡ idle.received ++ arrivals exchange)
    × (after_exchange.batches ≡ idle.batches ++ requests ∷ resends requests exchange)
send-recv_example =
    send-recv field requests (ok tt) idle after_exchange
      (record after_exchange { received = (0, 22) ∷ [] }) exchange 2 ((0, 21) ∷ (0, 21) ∷ [])
      exchanged two_received

-- A call that fails leaves its request in the map with a channel that nobody listens to.
abbrev after_failure : KvReliability ℕ ℕ
after_failure = record idle {
  sends = (21, 0) ∷ [];
  next = 1;
  closed = 0 ∷ [];
  batches = ((0, 21) ∷ []) ∷ [];
}

first_fails :
    send field ((0, 21) ∷ []) (ok tt) idle (recv_failed (eyre "reset") ∷ [])
    ≡ failed (eyre "reset") after_failure
unfolding send register_all send_loop
first_fails = refl

failure_reached :
    Reaches (send field ((0, 21) ∷ []) (ok tt) idle (recv_failed (eyre "reset") ∷ [])) after_failure
failure_reached = subst (λ run. Reaches run after_failure) (sym first_fails) refl

usable_again : IsNumbered field after_failure
usable_again =
    send-IsNumbered field ((0, 21) ∷ []) (ok tt) idle after_failure
      (recv_failed (eyre "reset") ∷ []) (refl, refl) failure_reached

-- When its response comes after all, the next call panics.
late_response_panics :
    send field ((0, 22) ∷ []) (ok tt) after_failure (responses ((0, 21) ∷ []) ∷ []) ≡ aborted
unfolding send register_all send_loop accept_response accept_responses
late_response_panics = refl
