-- ===== src/Tests/Client.antt =====
-- What clients make of a server's replies.
use tbm.Prelude.{inl, arith, ◌≡◌, ◌≤◌, refl, [], ◌∷◌, Memᴰ, ok, returns}
use tbm.Negotiate.Types.{StackNonce, Side, Picked}
use tbm.Negotiate.Offers.{offers, get_offer, merge, merge_all}
use tbm.Negotiate.Shift.{guids}
use tbm.Negotiate.Apply.{ApplyResult, apply, apply_chunnel, check_apply, apply_in_preference_order}
use tbm.Negotiate.Monomorphize.{monomorphize, server_reply}
use tbm.Negotiate.Client.{
  Chosen, choose_option, handle_response, select_option, consider, client_monomorphize,
}
use tbm.Negotiate.Client.Choice.{choose_option-best, choose_option-accepts}
use tbm.Negotiate.Client.Agreement.{handshake_agreement, client_monomorphize-IsOffered, IsOffered}
use tbm.Tests.Handshake.{
  tagger, other_tagger, server_stack, client_stack, ordering_offer, tls_offer, client_nonce,
  server_choice, result, handshake, tls_server, tls_client,
}

-- What the client makes of the server's reply.
abbrev client_chosen : Chosen
client_chosen = record {
  applied = Picked.cx_list (Picked.chunnel other_tagger) (Picked.chunnel tls_client);
  nonce = client_nonce;
}

client_accepts :
    handle_response client_stack (server_reply (ok result.picked_offers)) ≡ ok client_chosen
unfolding handle_response choose_option select_option consider check_apply apply apply_chunnel
    apply_in_preference_order
client_accepts = refl

server_handshake : monomorphize server_stack (offers client_stack) (ok []) ≡ returns (ok result)
unfolding offers get_offer merge merge_all
server_handshake = handshake

handshake_agreement_example : guids client_chosen.applied 11 ≡ guids result.new_stack 11
handshake_agreement_example =
    handshake_agreement server_stack client_stack (ok []) result client_chosen 11 (ordering_offer 6)
      server_handshake client_accepts refl (inl refl) refl refl
      (((λ e. refl), (λ e. refl)), (λ e. absurd (omega arith)))

-- With both taggers on offer, the first is preferred, and scores higher.
abbrev first_choice : StackNonce
first_choice = (12, tls_offer 8 []) ∷ (11, ordering_offer 5) ∷ []

abbrev preferred : Chosen
preferred = record {
  applied =
      Picked.cx_list (Picked.either Side.left (Picked.chunnel tagger)) (Picked.chunnel tls_server);
  nonce = first_choice;
}

abbrev second : ApplyResult
second = record {
  applied =
      Picked.cx_list (Picked.either Side.right (Picked.chunnel other_tagger))
        (Picked.chunnel tls_server);
  picked = (12, tls_offer 8 []) ∷ (11, ordering_offer 0) ∷ [];
  touched = 11 ∷ 12 ∷ [];
  score = 0;
}

prefers : choose_option server_stack (server_choice ∷ first_choice ∷ []) ≡ ok preferred
unfolding choose_option select_option consider check_apply apply apply_chunnel
    apply_in_preference_order
prefers = refl

second_applies : check_apply (apply server_stack server_choice) ≡ ok second
unfolding check_apply apply apply_chunnel apply_in_preference_order
second_applies = refl

choose_option-best_example :
    Memᴰ first_choice (server_choice ∷ first_choice ∷ [])
    × ((ar : ApplyResult) × (check_apply (apply server_stack first_choice) ≡ ok ar)
        × (preferred.applied ≡ ar.applied)
        × (0 ≤ ar.score))
choose_option-best_example =
    choose_option-best server_stack (server_choice ∷ first_choice ∷ []) preferred server_choice
      second prefers (Memᴰ.head refl) second_applies

choose_option-accepts_example :
    (c : Chosen) × (choose_option server_stack ([] ∷ server_choice ∷ []) ≡ ok c)
choose_option-accepts_example =
    choose_option-accepts server_stack ([] ∷ server_choice ∷ []) server_choice second
      (Memᴰ.tail (Memᴰ.head refl)) second_applies

client_monomorphize-IsOffered_example :
    IsOffered server_stack (client_monomorphize server_stack (client_nonce ∷ []) (ok []))
client_monomorphize-IsOffered_example =
    client_monomorphize-IsOffered server_stack (client_nonce ∷ []) (ok [])
