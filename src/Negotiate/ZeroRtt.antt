-- ===== src/Negotiate/ZeroRtt.antt =====
-- negotiate/client.rs, without a round trip: the nonces that `ClientNegotiator` keeps, the connection
-- that sends a nonce with no answer awaited, and the check of what is received on it.
pub mod Delivery
pub mod Nonces
use tbm.Prelude.{
  ℕ, zero, suc, Bool, true, false, List, [], ◌∷◌, ◌++◌, Option, none, some, get, insert, Bytes,
  Report, eyre, Result, ok, err, ◌>>=◌, Outcome, returns, panics,
}
use tbm.Negotiate.Types.{StackNonce, Stack, chunnel, absent, present, cx_list, Picked}
use tbm.Negotiate.Offers.{offers}
use tbm.Negotiate.Apply.{ApplyResult, apply}
use tbm.Negotiate.Monomorphize.{
  NegotiateMsg, client_offer, server_reply, server_nonce, client_nonce, server_nonce_ack,
}
use tbm.Negotiate.Client.{Chosen, inform, negotiate_client_fetch_nonce, client_monomorphize}

-- `ZeroRttNegotiationError`
pub data ZeroRttNegotiationError : Type 0 where
  not_accepted : List StackNonce → ZeroRttNegotiationError
  unexpected_response : NegotiateMsg → ZeroRttNegotiationError
  unexpected_error : Report → ZeroRttNegotiationError

-- The first two of a stack's offers: there has to be one only.
abbrev pub only_nonce : List StackNonce → Result StackNonce
only_nonce [] = err (eyre "No StackNonce available")
only_nonce (nonce ∷ []) = ok nonce
only_nonce (nonce ∷ _ ∷ offers) = err (eyre "Stack should not have Selects")

-- The stack of a connection that is opened with a nonce, with the message that is sent and the buffer
-- that the stack is handed.
pub record Opened : Type 0 where
  pub stack : Stack
  pub nonce : StackNonce
  pub sent : Bytes
  pub informed : Bytes

-- The bound `<S as Apply>::Applied: GetOffers` of `negotiate_client_nonce`: an applied stack has the types
-- of a stack, so it is one as it stands, but `GetOffers` has no instance for an `Either`, and then the
-- call does not compile (`none`).
abbrev pub both : Option Stack → Option Stack → Option Stack
both (some h) (some t) = some (cx_list h t)
both _ _ = none

abbrev pub wrapped_present : Option Stack → Option Stack
wrapped_present (some s) = some (present s)
wrapped_present none = none

abbrev pub settled : Picked → Option Stack
settled (Picked.chunnel n) = some (chunnel n)
settled Picked.absent = some absent
settled (Picked.present p) = wrapped_present (settled p)
settled (Picked.cx_list h t) = both (settled h) (settled t)
settled (Picked.either s p) = none

module _ (serialize : NegotiateMsg → Result Bytes) (serialize_addr : ℕ → Result Bytes)
    (send : ℕ → Bytes → Result {0} Unit) where
  unfoldable pub negotiate_client_fixed_stack : Stack → ℕ → Result Opened
  negotiate_client_fixed_stack stack addr = do
    nonce ← only_nonce (offers stack)
    buf ← serialize (client_nonce nonce)
    _ ← send addr buf
    informed ← inform serialize serialize_addr addr nonce
    ok (record { stack = stack; nonce = nonce; sent = buf; informed = informed })

  abbrev pub open_settled : ℕ → Option Stack → Result Opened
  open_settled addr (some stack) = negotiate_client_fixed_stack stack addr
  open_settled addr none = err (eyre "an Either has no offers")

  unfoldable pub negotiate_client_nonce : Stack → StackNonce → ℕ → Result Opened
  negotiate_client_nonce stack nonce addr = do
    ar ← apply stack nonce
    open_settled addr (settled ar.applied)

  -- `ClientNegotiator`: its map of nonces is the first argument, and is returned where it changes.
  abbrev pub remember :
      List (ℕ × StackNonce)
      → ℕ
      → Result (Chosen × Bytes)
      → Result (Chosen × Bytes) × List (ℕ × StackNonce)
  remember nonces addr (ok (c, buf)) = (ok (c, buf), insert addr c.nonce nonces)
  remember nonces addr (err e) = (err e, nonces)

  unfoldable pub negotiate_fetch_nonce :
      List (ℕ × StackNonce)
      → Stack
      → ℕ
      → Result NegotiateMsg
      → Result (Chosen × Bytes) × List (ℕ × StackNonce)
  negotiate_fetch_nonce nonces stack addr resp =
      remember nonces addr (negotiate_client_fetch_nonce serialize serialize_addr stack addr resp)

  abbrev pub open_known : Stack → ℕ → Option StackNonce → Result Opened
  open_known stack addr none = err (eyre "No nonce found for addr")
  open_known stack addr (some nonce) = negotiate_client_nonce stack nonce addr

  unfoldable pub negotiate_zero_rtt : List (ℕ × StackNonce) → Stack → ℕ → Result Opened
  negotiate_zero_rtt nonces stack addr = open_known stack addr (get addr nonces)

  abbrev pub reopen :
      List (ℕ × StackNonce)
      → Stack
      → ℕ
      → Outcome StackNonce
      → Outcome Opened × List (ℕ × StackNonce)
  reopen nonces stack addr panics = (panics, nonces)
  reopen nonces stack addr (returns (err e)) = (returns (err e), nonces)
  reopen nonces stack addr (returns (ok picked)) =
      (returns (negotiate_client_nonce stack picked addr), insert addr picked nonces)

  -- `none` is an error that is not a `ZeroRttNegotiationError`.
  unfoldable pub re_negotiate :
      List (ℕ × StackNonce)
      → Stack
      → ℕ
      → Option ZeroRttNegotiationError
      → Result Bytes
      → Outcome Opened × List (ℕ × StackNonce)
  re_negotiate nonces stack addr none empty =
      (returns (err (eyre "Renegotation only works with an error from negotiate_zero_rtt")), nonces)
  re_negotiate nonces stack addr (some (not_accepted options)) empty =
      reopen nonces stack addr (client_monomorphize stack options empty)
  re_negotiate nonces stack addr (some e) empty =
      (returns (err (eyre "Non-negotiation error")), nonces)

-- What the calls of `inner.recv` return, in order.
abbrev pub Arrivals : Type 0
Arrivals = List (Result (List (ℕ × Bytes)))

pub data RecvError : Type 0 where
  inner_error : Report → RecvError
  negotiation : ZeroRttNegotiationError → RecvError

-- A call of `recv` that waits for more, or returns messages or an error, with the flag `success` and
-- the arrivals that are left.
pub data Recv : Type 0 where
  waits : Bool → Recv
  delivers : List (ℕ × Bytes) → Bool → Arrivals → Recv
  fails : RecvError → Bool → Arrivals → Recv

abbrev pub recv_inner : Arrivals → Recv
recv_inner [] = waits true
recv_inner (ok burst ∷ rs) = delivers burst true rs
recv_inner (err e ∷ rs) = fails (inner_error e) true rs

-- The `match` on the deserialised message.
abbrev pub check_reply : ℕ → Bytes → Arrivals → Result NegotiateMsg → Recv
check_reply a d rs (ok server_nonce_ack) = recv_inner rs
check_reply a d rs (err e) = delivers ((a, d) ∷ []) false rs
check_reply a d rs (ok (server_reply (ok options))) =
    fails (negotiation (not_accepted options)) false rs
check_reply a d rs (ok (server_reply (err s))) = fails (negotiation (unexpected_error s)) false rs
check_reply a d rs (ok m) = fails (negotiation (unexpected_response m)) false rs

module _ (deserialize : Bytes → Result NegotiateMsg) where
  unfoldable pub recv : Bool → Arrivals → Recv
  recv true rs = recv_inner rs
  recv false [] = waits false
  recv false (err e ∷ rs) = fails (inner_error e) false rs
  recv false (ok [] ∷ rs) = recv false rs
  recv false (ok ((a, d) ∷ ms) ∷ rs) = check_reply a d rs (deserialize d)
