-- ===== src/Negotiate/Client.antt =====
-- negotiate/client.rs: what a client makes of the server's answers. The socket and the wrapped
-- connection are not modelled: a function that connects returns the stack that it wraps, with the
-- nonce and the buffer that it hands to `call_negotiate_picked`.
pub mod Steps
pub mod Choice
pub mod Agreement
use tbm.Prelude.{
  ℕ, ltb, Bool, true, false, ◌||◌, List, [], ◌∷◌, Option, none, some, if◌then◌else◌, get, insert,
  Bytes, Report, eyre, wrap_err, Result, ok, err, wrap, ◌>>=◌, Outcome, returns, panics,
}
use tbm.Negotiate.Types.{StackNonce, Stack, chunnel, absent, present, cx_list, select, Picked}
use tbm.Negotiate.Offers.{offers}
use tbm.Negotiate.Apply.{ApplyResult, apply, check_apply}
use tbm.Negotiate.Monomorphize.{
  NegotiateMsg, Monomorphized, monomorphize, client_offer, server_reply, server_nonce, client_nonce,
  server_nonce_ack,
}

pub record Chosen : Type 0 where
  pub applied : Picked
  pub nonce : StackNonce

-- The variables of the loop over the options received.
pub record Selection : Type 0 where
  pub sc : ℕ
  pub applied : Option Chosen
  pub apply_err : Report

abbrev pub is_none : Option Chosen → Bool
is_none none = true
is_none (some c) = false

-- The body of the loop, from the result of applying the option.
unfoldable pub consider : StackNonce → Result ApplyResult → Selection → Selection
consider p (ok ar) s =
    if ltb s.sc ar.score || is_none s.applied
    then record s { sc = ar.score; applied = some (record { applied = ar.applied; nonce = p }) }
    else s
consider p (err e) s = record s { apply_err = wrap_err s.apply_err e }

unfoldable pub select_option : Stack → List StackNonce → Selection → Selection
select_option stack [] s = s
select_option stack (p ∷ picked) s =
    select_option stack picked
      (consider p (wrap "Could not apply received impls to stack" (check_apply (apply stack p))) s)

abbrev pub or_default : List StackNonce → List StackNonce
or_default [] = [] ∷ []
or_default (p ∷ picked) = p ∷ picked

abbrev pub first_selection : Selection
first_selection = record { sc = 0; applied = none; apply_err = eyre "Apply error" }

abbrev pub selected : Selection → Result Chosen
selected s = elim s.applied [
  | none ↦ err (wrap_err s.apply_err (eyre "All received options failed to apply"))
  | some c ↦ ok c
]

unfoldable pub choose_option : Stack → List StackNonce → Result Chosen
choose_option stack picked = selected (select_option stack (or_default picked) first_selection)

-- The `match` on the response.
unfoldable pub handle_response : Stack → NegotiateMsg → Result Chosen
handle_response stack (server_reply (ok picked)) = choose_option stack picked
handle_response stack (server_reply (err e)) = err e
handle_response stack m = err (eyre "Received unknown message type")

-- `serialize` and `serialize_addr` are `bincode::serialize`, of a message and of an address.
module _ (serialize : NegotiateMsg → Result Bytes) (serialize_addr : ℕ → Result Bytes) where
  abbrev pub inform : ℕ → StackNonce → Result Bytes
  inform addr nonce = do a ← serialize_addr addr; serialize (server_nonce a nonce)

  -- `resp` is the answer that `try_negotiate_offer_loop` waits for.
  unfoldable pub negotiate_client_fetch_nonce :
      Stack → ℕ → Result NegotiateMsg → Result (Chosen × Bytes)
  negotiate_client_fetch_nonce stack addr resp = do
    m ← resp
    c ← handle_response stack m
    buf ← inform addr c.nonce
    ok (c, buf)

abbrev pub picked_nonce : Monomorphized → NegotiateMsg → Outcome StackNonce
picked_nonce m (server_nonce addr picked) = returns (ok picked)
picked_nonce m _ = panics

abbrev pub client_picked : Outcome Monomorphized → Outcome StackNonce
client_picked panics = panics
client_picked (returns (err e)) = returns (err e)
client_picked (returns (ok m)) = picked_nonce m m.nonce

-- `empty` is the serialised empty string, in place of an address.
unfoldable pub client_monomorphize : Stack → List StackNonce → Result Bytes → Outcome StackNonce
client_monomorphize stack server_offers empty =
    client_picked (monomorphize stack server_offers empty)
