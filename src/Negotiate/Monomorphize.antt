-- ===== src/Negotiate/Monomorphize.antt =====
-- negotiate/server.rs, `monomorphize`: the server's stack made concrete for a client's offers, with the
-- nonce that names the choice and the client's stacks that remain.
pub mod Agreement
pub mod Nonce
use tbm.Prelude.{
  Bool, false, List, [], ◌∷◌, Option, none, some, get, all, map, find, Bytes, all_bytes_eq, Result,
  ok, err, wrap, Outcome, returns, panics, ◌>>=◌,
}
use tbm.Negotiate.Types.{Offer, StackNonce, OfferPair, Stack, Picked}
use tbm.Negotiate.Offers.{offers}
use tbm.Negotiate.Compare.{compare_offers}
use tbm.Negotiate.Pick.{PickResult, pick, check_touched_complete}

-- `NegotiateMsg`. The text of an error is the error.
pub data NegotiateMsg : Type 0 where
  client_offer : List StackNonce → NegotiateMsg
  server_reply : Result (List StackNonce) → NegotiateMsg
  server_nonce : Bytes → StackNonce → NegotiateMsg
  client_nonce : StackNonce → NegotiateMsg
  server_nonce_ack : NegotiateMsg

pub record Monomorphized : Type 0 where
  pub new_stack : Picked
  pub nonce : NegotiateMsg
  pub picked_offers : List StackNonce

abbrev pub same_available : Offer → Option Offer → Bool
same_available offer none = false
same_available offer (some picked_offer) = all_bytes_eq picked_offer.available offer.available

-- `check_possibilities`, up to its `expect`.
unfoldable pub check_possibilities : StackNonce → List StackNonce → Option StackNonce
check_possibilities picked choices =
    find (λ option. all (λ e. same_available e.1 (get e.0 picked)) option) choices

-- `server_choices.pop()`, whose `unwrap` panics on an empty list.
abbrev pub pop : List OfferPair → Option StackNonce
pop [] = none
pop (p ∷ ps) = elim (pop ps) [ none ↦ some p.1 | some s ↦ some s ]

abbrev pub with_nonce : PickResult → StackNonce → Result Bytes → Result Monomorphized
with_nonce pr choice addr = do
  a ← addr
  ok (record {
    new_stack = pr.stack;
    nonce = server_nonce a choice;
    picked_offers = map (λ p. p.0) pr.filtered_pairs;
  })

abbrev pub with_choice : PickResult → Option StackNonce → Result Bytes → Outcome Monomorphized
with_choice pr none addr = panics
with_choice pr (some choice) addr = returns (with_nonce pr choice addr)

abbrev pub choose_server :
    PickResult → List StackNonce → Option StackNonce → Result Bytes → Outcome Monomorphized
choose_server pr possibilities none addr = panics
choose_server pr possibilities (some server_choice) addr =
    with_choice pr (check_possibilities server_choice possibilities) addr

abbrev pub finish : List StackNonce → Result PickResult → Result Bytes → Outcome Monomorphized
finish possibilities (err e) addr = returns (err e)
finish possibilities (ok pr) addr = choose_server pr possibilities (pop pr.filtered_pairs) addr

-- `addr` is the result of `bincode::serialize(from_addr)`.
unfoldable pub monomorphize : Stack → List StackNonce → Result Bytes → Outcome Monomorphized
monomorphize stack client_offers addr =
    let possibilities = offers stack in
    let valid_pairs = compare_offers client_offers possibilities in
    finish possibilities
      (wrap "error monomorphizing stack" (check_touched_complete (pick stack valid_pairs))) addr
