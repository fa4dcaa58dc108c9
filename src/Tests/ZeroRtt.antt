-- ===== src/Tests/ZeroRtt.antt =====
-- Connections that are opened with a nonce.
use tbm.Prelude.{
  ℕ, ◌≡◌, ◌==◌, refl, arith, false, [], ◌∷◌, some, Bytes, Result, ok, err, eyre, returns,
  if◌then◌else◌,
}
use tbm.Negotiate.Offers.{offers, get_offer, merge, merge_all}
use tbm.Negotiate.Compare.{compare_offers, compare_server, stack_pair_valid}
use tbm.Negotiate.Pick.{
  pick, pick_chunnel, pick_pair, check_touched_complete, check_touched_partial, pair_complete,
  pair_partial, remaining, pick_in_preference_order,
}
use tbm.Negotiate.Monomorphize.{NegotiateMsg, server_nonce_ack, monomorphize, check_possibilities}
use tbm.Negotiate.Client.{client_monomorphize}
use tbm.Negotiate.ZeroRtt.{Arrivals, negotiate_zero_rtt, re_negotiate, not_accepted}
use tbm.Negotiate.ZeroRtt.Delivery.{calls, due, calls-due}
use tbm.Negotiate.ZeroRtt.Nonces.{re_negotiate-zero_rtt}
use tbm.Tests.Handshake.{client_stack, client_nonce}
use tbm.Tests.Server.{encode}

-- An acknowledgement is the only message of the negotiation.
abbrev decode_ack : Bytes → Result NegotiateMsg
decode_ack [] = err (eyre "not a message")
decode_ack (tag ∷ bs) = if tag == 4 then ok server_nonce_ack else err (eyre "not a message")

-- Data overtakes the acknowledgement, and two messages follow it at once.
abbrev arrivals : Arrivals
arrivals =
    ok ((7, 9 ∷ []) ∷ [])
    ∷ ok []
    ∷ ok ((7, 4 ∷ []) ∷ [])
    ∷ err (eyre "reset")
    ∷ ok ((7, 4 ∷ []) ∷ (7, 8 ∷ []) ∷ [])
    ∷ []

due-arrivals : due decode_ack false arrivals ≡ (7, 9 ∷ []) ∷ (7, 4 ∷ []) ∷ (7, 8 ∷ []) ∷ []
due-arrivals = refl

calls-due_example : calls decode_ack 5 false arrivals ≡ due decode_ack false arrivals
calls-due_example = calls-due decode_ack 5 arrivals (omega arith)

abbrev delivered : ℕ → Bytes → Result {0} Unit
delivered a buf = ok tt

abbrev addr_bytes : ℕ → Result Bytes
addr_bytes a = ok (a ∷ [])

finds : client_monomorphize client_stack (client_nonce ∷ []) (ok []) ≡ returns (ok client_nonce)
unfolding client_monomorphize monomorphize offers get_offer merge merge_all compare_offers
    compare_server stack_pair_valid pick pick_chunnel pick_pair check_touched_complete
    check_touched_partial pair_complete pair_partial remaining pick_in_preference_order
    check_possibilities
finds = refl

re_negotiate-zero_rtt_example :
    (re_negotiate encode addr_bytes delivered [] client_stack 7
      (some (not_accepted (client_nonce ∷ [])))
      (ok [])).0
    ≡ returns (
        negotiate_zero_rtt encode addr_bytes delivered
          (re_negotiate encode addr_bytes delivered [] client_stack 7
            (some (not_accepted (client_nonce ∷ [])))
            (ok [])).1
          client_stack
          7)
re_negotiate-zero_rtt_example =
    re_negotiate-zero_rtt encode addr_bytes delivered [] client_stack 7 (client_nonce ∷ []) (ok [])
      client_nonce finds
