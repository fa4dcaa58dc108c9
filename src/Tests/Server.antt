-- ===== src/Tests/Server.antt =====
-- Connections of a server, with a small stand-in for bincode.
use tbm.Prelude.{
  ℕ, ◌≡◌, refl, subst, sym, ◌==◌, if◌then◌else◌, List, [], ◌∷◌, some, get, Bytes, Result, ok, err,
  eyre,
}
use tbm.Negotiate.Types.{Side, Picked}
use tbm.Negotiate.Offers.{offers, get_offer, merge, merge_all}
use tbm.Negotiate.Compare.{compare_offers, compare_server, stack_pair_valid}
use tbm.Negotiate.Pick.{
  pick, pick_chunnel, pick_pair, check_touched_complete, check_touched_partial, pair_complete,
  pair_partial, remaining, pick_in_preference_order,
}
use tbm.Negotiate.Apply.{ApplyResult, apply, apply_chunnel, apply_in_preference_order, check_apply}
use tbm.Negotiate.Monomorphize.{
  NegotiateMsg, monomorphize, client_offer, server_reply, server_nonce, server_nonce_ack,
  check_possibilities, client_nonce,
}
use tbm.Negotiate.Server.{
  Wire, ServerState, Event, received, picked, applied, waiting, ended, aborted, server_turn,
  nonces_turn, process_nonces_connection, negotiate_server_connection,
}
use tbm.Negotiate.Server.Pending.{Reaches, pending-Accounted, Accounted}
use tbm.Negotiate.Server.Recorded.{nonces_recorded, announced_connects}
use tbm.Negotiate.Server.Connected.{connected-Heard, Heard}
use tbm.Negotiate.Server.Calm.{Blamed, panic-Blamed}
use tbm.Tests.Handshake.{
  tagger, other_tagger, server_stack, ordering_offer, tls_offer, tls_server, server_choice, result,
}
use tbm.Tests.Handshake

abbrev pub encode : NegotiateMsg → Result Bytes
encode (client_offer os) = ok (3 ∷ [])
encode (server_reply (ok os)) = ok (1 ∷ [])
encode (server_reply (err e)) = ok (0 ∷ [])
encode (server_nonce addr n) = ok (2 ∷ addr)
encode (client_nonce n) = ok (5 ∷ [])
encode server_nonce_ack = ok (4 ∷ [])

abbrev decode : Bytes → Result NegotiateMsg
decode [] = err (eyre "not a message")
decode (tag ∷ addr) =
    if tag == 2
    then ok (server_nonce addr server_choice)
    else if tag == 3
    then ok (client_offer (Handshake.client_nonce ∷ []))
    else err (eyre "not a message")

abbrev decode_addr : Bytes → Result ℕ
decode_addr [] = err (eyre "no address")
decode_addr (a ∷ bs) = ok a

abbrev wire : Wire
wire = record {
  serialize = encode;
  deserialize = decode;
  serialize_addr = λ a. ok (a ∷ []);
  deserialize_addr = decode_addr;
  send = λ a buf. ok tt;
  connect_wrap = λ p. ok tt;
  inject = λ a buf. ok tt;
}

abbrev fresh : ServerState
fresh = record { pending = []; sent = []; informed = [] }

-- A message that is not one of the protocol is dropped, and the offer after it is answered.
abbrev offered : ServerState
offered = record { pending = []; sent = (7, 1 ∷ []) ∷ []; informed = (2 ∷ 7 ∷ []) ∷ [] }

abbrev offer_events : List Event
offer_events = received 7 (9 ∷ []) ∷ received 7 (3 ∷ []) ∷ []

offer_run :
    negotiate_server_connection wire server_stack fresh offer_events
    ≡ ended offered (ok (some (picked result.new_stack)))
unfolding negotiate_server_connection server_turn monomorphize offers get_offer merge merge_all
    compare_offers compare_server stack_pair_valid pick pick_chunnel pick_pair
    check_touched_complete check_touched_partial pair_complete pair_partial remaining
    pick_in_preference_order check_possibilities
offer_run = refl

connected-Heard_example : Heard wire server_stack offer_events offered result.new_stack
connected-Heard_example =
    connected-Heard wire server_stack offer_events fresh offered result.new_stack offer_run

-- A nonce for the address 7, sent from the address 1.
abbrev announced : ServerState
announced = record { pending = (7, server_choice) ∷ []; sent = (1, 4 ∷ []) ∷ []; informed = [] }

abbrev nonce_events : List Event
nonce_events = received 1 (2 ∷ 7 ∷ []) ∷ []

nonce_run : negotiate_server_connection wire server_stack fresh nonce_events ≡ waiting announced
unfolding negotiate_server_connection server_turn process_nonces_connection
nonce_run = refl

reached : Reaches (negotiate_server_connection wire server_stack fresh nonce_events) announced
reached = subst (λ run. Reaches run announced) (sym nonce_run) refl

pending-Accounted_example : Accounted wire nonce_events 7 fresh announced
pending-Accounted_example =
    pending-Accounted wire server_stack nonce_events 7 fresh announced reached

nonces_run : process_nonces_connection wire fresh nonce_events ≡ waiting announced
unfolding process_nonces_connection nonces_turn
nonces_run = refl

nonces_recorded_example :
    (get 7 announced.pending ≡ some server_choice) × (announced.sent ≡ (1, 4 ∷ []) ∷ [])
nonces_recorded_example =
    nonces_recorded wire (4 ∷ []) nonce_events fresh announced 7 refl nonces_run

abbrev applied_choice : ApplyResult
applied_choice = record {
  applied =
      Picked.cx_list (Picked.either Side.right (Picked.chunnel other_tagger))
        (Picked.chunnel tls_server);
  picked = (12, tls_offer 8 []) ∷ (11, ordering_offer 0) ∷ [];
  touched = 11 ∷ 12 ∷ [];
  score = 0;
}

choice_applies : apply server_stack server_choice ≡ ok applied_choice
unfolding apply apply_chunnel apply_in_preference_order check_apply
choice_applies = refl

announced_connects_example :
    negotiate_server_connection wire server_stack announced (received 7 (9 ∷ []) ∷ [])
    ≡ ended announced (ok (some (applied applied_choice.applied 7 (9 ∷ []))))
announced_connects_example =
    announced_connects wire server_stack (4 ∷ []) (9 ∷ []) nonce_events [] fresh announced 7
      server_choice applied_choice refl nonces_run refl choice_applies refl refl

-- A bincode that fails on the acknowledgement.
abbrev no_ack : NegotiateMsg → Result Bytes
no_ack server_nonce_ack = err (eyre "too large")
no_ack m = encode m

abbrev broken : Wire
broken = record wire { serialize = no_ack }

broken_run : negotiate_server_connection broken server_stack fresh nonce_events ≡ aborted
unfolding negotiate_server_connection server_turn
broken_run = refl

panic-Blamed_example : Blamed broken server_stack nonce_events
panic-Blamed_example = panic-Blamed broken server_stack nonce_events fresh broken_run
