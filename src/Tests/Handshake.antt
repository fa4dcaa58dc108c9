-- ===== src/Tests/Handshake.antt =====
-- Handshakes between small stacks, after the tests of bertha/src/negotiate/mod.rs.
use tbm.Prelude.{
  ℕ, ◌≡◌, ◌≢◌, ◌^◌, ◌≤◌, refl, List, [], ◌∷◌, Memᴰ, none, some, Bytes, length, ok, returns, panics,
  ◌↔◌, true, arith,
}
use tbm.Negotiate.Types.{
  CapabilitySet, Negotiate, Offer, StackNonce, Side, Stack, chunnel, cx_list, select, Picked,
}
use tbm.Negotiate.Offers.{offers, get_offer, merge, merge_all}
use tbm.Negotiate.Offers.Count.{selects, length-offers-le}
use tbm.Negotiate.Compare.{compare_offers, compare_server, stack_pair_valid}
use tbm.Negotiate.Compare.Members.{IsValidPair, mem-compare_offers}
use tbm.Negotiate.Shift.{guids}
use tbm.Negotiate.Pick.{
  pick, pick_chunnel, pick_pair, check_touched_complete, check_touched_partial, pair_complete,
  pair_partial, remaining, pick_in_preference_order,
}
use tbm.Negotiate.Apply.{ApplyResult, apply, apply_chunnel, check_apply, apply_in_preference_order}
use tbm.Negotiate.Apply.Agreement.{check_apply_agreement}
use tbm.Negotiate.Monomorphize.{Monomorphized, monomorphize, server_nonce, check_possibilities}
use tbm.Negotiate.Monomorphize.Agreement.{monomorphize_agreement, reply_subset}
use tbm.Negotiate.Monomorphize.Nonce.{IsNamed, monomorphize-nonce, monomorphize_no_panic}

-- A two-sided capability with two implementations, and a one-sided one.
abbrev ordering : CapabilitySet
ordering = record { guid = 11; universe = none }

abbrev tls : CapabilitySet
tls = record { guid = 12; universe = some ((0 ∷ []) ∷ (1 ∷ []) ∷ []) }

abbrev pub tagger : Negotiate
tagger = record { capability = ordering; guid = 5; capabilities = (7 ∷ []) ∷ [] }

abbrev pub other_tagger : Negotiate
other_tagger = record { capability = ordering; guid = 6; capabilities = (7 ∷ []) ∷ [] }

abbrev pub tls_client : Negotiate
tls_client = record { capability = tls; guid = 9; capabilities = (0 ∷ []) ∷ (1 ∷ []) ∷ [] }

abbrev pub tls_server : Negotiate
tls_server = record { capability = tls; guid = 8; capabilities = [] }

-- The server has a choice of taggers above its TLS, the client has the second one.
abbrev pub server_stack : Stack
server_stack =
    cx_list (select (chunnel tagger) (chunnel other_tagger) Side.left) (chunnel tls_server)

abbrev pub client_stack : Stack
client_stack = cx_list (chunnel other_tagger) (chunnel tls_client)

abbrev pub ordering_offer : ℕ → Offer
ordering_offer impl = record {
  capability_guid = 11;
  impl_guid = impl;
  sidedness = none;
  available = (7 ∷ []) ∷ [];
}

abbrev pub tls_offer : ℕ → List Bytes → Offer
tls_offer impl available = record {
  capability_guid = 12;
  impl_guid = impl;
  sidedness = some ((0 ∷ []) ∷ (1 ∷ []) ∷ []);
  available = available;
}

abbrev pub client_nonce : StackNonce
client_nonce = (12, tls_offer 9 ((0 ∷ []) ∷ (1 ∷ []) ∷ [])) ∷ (11, ordering_offer 6) ∷ []

abbrev pub server_choice : StackNonce
server_choice = (12, tls_offer 8 []) ∷ (11, ordering_offer 6) ∷ []

-- The server picks the second tagger, as the client has that one.
abbrev pub result : Monomorphized
result = record {
  new_stack =
      Picked.cx_list (Picked.either Side.right (Picked.chunnel other_tagger))
        (Picked.chunnel tls_server);
  nonce = server_nonce [] ((12, tls_offer 8 []) ∷ (11, ordering_offer 5) ∷ []);
  picked_offers = client_nonce ∷ [];
}

pub client_offers : offers client_stack ≡ client_nonce ∷ []
unfolding offers get_offer merge merge_all
client_offers = refl

-- The stack that is picked has the tagger with GUID 6, and the nonce names the one with GUID 5: the
-- first of the possibilities with the same lists of what is available.
pub handshake : monomorphize server_stack (client_nonce ∷ []) (ok []) ≡ returns (ok result)
unfolding monomorphize offers get_offer merge merge_all compare_offers compare_server
    stack_pair_valid pick pick_chunnel pick_pair check_touched_complete check_touched_partial
    pair_complete pair_partial remaining pick_in_preference_order check_possibilities
handshake = refl

monomorphize_agreement_example : 6 ≡ guids result.new_stack 11
monomorphize_agreement_example =
    monomorphize_agreement server_stack (client_nonce ∷ []) (ok []) result client_nonce 11
      (ordering_offer 6) handshake (Memᴰ.head refl) refl refl
      (((λ e. refl), (λ e. refl)), (λ e. absurd (omega arith)))

reply_subset_example :
    Memᴰ client_nonce (client_nonce ∷ [])
    × ((server : StackNonce) × Memᴰ server (offers server_stack)
        × (stack_pair_valid client_nonce server ≡ true))
reply_subset_example =
    reply_subset server_stack (client_nonce ∷ []) (ok []) result client_nonce handshake
      (Memᴰ.head refl)

monomorphize-nonce_example : IsNamed server_stack (client_nonce ∷ []) (ok []) result
monomorphize-nonce_example =
    monomorphize-nonce server_stack (client_nonce ∷ []) (ok []) result handshake

monomorphize_no_panic_example : monomorphize server_stack (client_nonce ∷ []) (ok []) ≢ panics
monomorphize_no_panic_example = monomorphize_no_panic server_stack (client_nonce ∷ []) (ok [])

mem-compare_offers_example :
    Memᴰ (client_nonce, server_choice) (compare_offers (client_nonce ∷ []) (server_choice ∷ []))
    ↔ IsValidPair (client_nonce ∷ []) (server_choice ∷ []) (client_nonce, server_choice)
mem-compare_offers_example =
    mem-compare_offers (client_nonce ∷ []) (server_choice ∷ []) (client_nonce, server_choice)

length-offers-le_example : length (offers server_stack) ≤ 2 ^ selects server_stack
length-offers-le_example = length-offers-le server_stack

abbrev applied : ApplyResult
applied = record {
  applied =
      Picked.cx_list (Picked.either Side.right (Picked.chunnel other_tagger))
        (Picked.chunnel tls_server);
  picked = (12, tls_offer 8 []) ∷ (11, ordering_offer 0) ∷ [];
  touched = 11 ∷ 12 ∷ [];
  score = 0;
}

server_applies : check_apply (apply server_stack server_choice) ≡ ok applied
unfolding check_apply apply apply_chunnel apply_in_preference_order
server_applies = refl

check_apply_agreement_example : 6 ≡ guids applied.applied 11
check_apply_agreement_example =
    check_apply_agreement server_stack server_choice applied 11 (ordering_offer 6) server_applies
      refl refl refl
