-- ===== src/Negotiate/Server.antt =====
-- negotiate/server.rs, `negotiate_server_connection` and `process_nonces_connection`: the loops that
-- answer the messages of one connection. The map of pending connections is shared between the
-- connections of a server; what another connection writes to it is an event of this one.
pub mod Writes
pub mod Pending
pub mod Recorded
pub mod Negotiated
pub mod Connected
pub mod Blame
pub mod Calm
use tbm.Prelude.{
  ℕ, ltb, Bool, true, false, List, [], ◌∷◌, ◌++◌, Option, none, some, if◌then◌else◌, get, insert,
  length, Bytes, Report, eyre, wrap_err, Result, ok, err, wrap, ◌>>=◌, Outcome, returns, panics,
}
use tbm.Negotiate.Types.{StackNonce, Stack, Picked}
use tbm.Negotiate.Offers.{offers}
use tbm.Negotiate.Apply.{ApplyResult, apply}
use tbm.Negotiate.Monomorphize.{
  NegotiateMsg, Monomorphized, monomorphize, client_offer, server_reply, server_nonce, client_nonce,
  server_nonce_ack,
}

-- bincode, and the results of what the server does with a connection.
pub record Wire : Type 0 where
  pub serialize : NegotiateMsg → Result Bytes
  pub deserialize : Bytes → Result NegotiateMsg
  pub serialize_addr : ℕ → Result Bytes
  pub deserialize_addr : Bytes → Result ℕ
  pub send : ℕ → Bytes → Result {0} Unit
  pub connect_wrap : Picked → Result {0} Unit
  pub inject : ℕ → Bytes → Result {0} Unit

-- The messages sent and the buffers handed to `call_negotiate_picked` are kept in order.
pub record ServerState : Type 0 where
  pub pending : List (ℕ × StackNonce)
  pub sent : List (ℕ × Bytes)
  pub informed : List Bytes

-- `recorded` is an insertion into the shared map by another connection.
pub data Event : Type 0 where
  received : ℕ → Bytes → Event
  failed : Report → Event
  timed_out : Event
  recorded : ℕ → StackNonce → Event

-- `Either` of a stack picked in a handshake and a stack applied to a nonce; the latter's connection
-- first returns the message that is injected.
pub data Connection : Type 0 where
  picked : Picked → Connection
  applied : Picked → ℕ → Bytes → Connection

-- What one round of a loop comes to.
pub data Turn : Type 0 where
  continues : ServerState → Turn
  nonces : ServerState → Turn
  finished : ServerState → Result (Option Connection) → Turn
  panicked : Turn

-- Where the loop is, or how it ended.
pub data Run : Type 0 where
  waiting : ServerState → Run
  ended : ServerState → Result (Option Connection) → Run
  aborted : Run

abbrev pub record_nonce : ℕ → StackNonce → ServerState → ServerState
record_nonce addr nonce s = record s { pending = insert addr nonce s.pending }

abbrev pub add_sent : ℕ → Bytes → ServerState → ServerState
add_sent a buf s = record s { sent = s.sent ++ (a, buf) ∷ [] }

abbrev pub add_informed : Bytes → ServerState → ServerState
add_informed buf s = record s { informed = s.informed ++ buf ∷ [] }

abbrev pub question : Result Bytes → Outcome Bytes
question r = returns r

abbrev pub unwrap : Result Bytes → Outcome Bytes
unwrap (ok b) = returns (ok b)
unwrap (err e) = panics

module _ (w : Wire) where
  abbrev pub injected : ServerState → Connection → Result {0} Unit → Turn
  injected s c (ok _) = finished s (ok (some c))
  injected s c (err e) = finished s (err (eyre "Send failed"))

  abbrev pub wrapped_applied : ServerState → ℕ → Bytes → Picked → Result {0} Unit → Turn
  wrapped_applied s a buf stack (ok _) = injected s (applied stack a buf) (w.inject a buf)
  wrapped_applied s a buf stack (err e) = finished s (err e)

  -- A message from an address with a nonce: the stack is applied to the nonce.
  abbrev pub apply_pending : ServerState → ℕ → Bytes → Result ApplyResult → Turn
  apply_pending s a buf (ok ar) = wrapped_applied s a buf ar.applied (w.connect_wrap ar.applied)
  apply_pending s a buf (err e) =
      finished s (err (wrap_err e (eyre "failed to apply semantics to client connection")))

  abbrev pub wrapped_picked : ServerState → Picked → Result {0} Unit → Turn
  wrapped_picked s stack (ok _) = finished s (ok (some (picked stack)))
  wrapped_picked s stack (err e) = finished s (err e)

  abbrev pub connected : ServerState → Option Picked → Turn
  connected s (some stack) = wrapped_picked s stack (w.connect_wrap stack)
  connected s none = continues s

  abbrev pub after_send : ServerState → ℕ → Bytes → Option Picked → Result {0} Unit → Turn
  after_send s a buf new_stack (ok _) = connected (add_sent a buf s) new_stack
  after_send s a buf new_stack (err e) = finished s (err e)

  -- The response, which has to fit in a packet.
  abbrev pub respond : ServerState → ℕ → Option Picked → Outcome Bytes → Turn
  respond s a new_stack panics = panicked
  respond s a new_stack (returns (err e)) = finished s (err e)
  respond s a new_stack (returns (ok buf)) =
      if ltb (length buf) 1500 then after_send s a buf new_stack (w.send a buf) else panicked

  abbrev pub inform_picked :
      ServerState → ℕ → Picked → (Result Bytes → Outcome Bytes) → NegotiateMsg → Result Bytes → Turn
  inform_picked s a new_stack unwraps resp (ok nonce_buf) =
      respond (add_informed nonce_buf s) a (some new_stack) (unwraps (w.serialize resp))
  inform_picked s a new_stack unwraps resp (err e) =
      finished s (err (wrap_err e (eyre "Failed to serialize (addr, chosen_stack) nonce")))

  -- The one-rtt case.
  abbrev pub answer_offer : ServerState → ℕ → Outcome Monomorphized → Turn
  answer_offer s a panics = panicked
  answer_offer s a (returns (ok m)) =
      inform_picked s a m.new_stack question (server_reply (ok m.picked_offers))
        (w.serialize m.nonce)
  answer_offer s a (returns (err e)) =
      respond s a none (question (w.serialize (server_reply (err e))))

  -- The zero-rtt case.
  abbrev pub answer_nonce : Stack → ServerState → ℕ → Outcome Monomorphized → Turn
  answer_nonce stack s a panics = panicked
  answer_nonce stack s a (returns (ok m)) =
      inform_picked s a m.new_stack unwrap server_nonce_ack (w.serialize m.nonce)
  answer_nonce stack s a (returns (err e)) =
      respond s a none (unwrap (w.serialize (server_reply (ok (offers stack)))))

  abbrev pub ack_sent : ServerState → ℕ → Bytes → Result {0} Unit → Turn
  ack_sent s a ack (ok _) = nonces (add_sent a ack s)
  ack_sent s a ack (err e) = finished s (err e)

  abbrev pub send_ack : ServerState → ℕ → Result Bytes → Turn
  send_ack s a (ok ack) = ack_sent s a ack (w.send a ack)
  send_ack s a (err e) = panicked

  -- A nonce for an address is recorded and acknowledged.
  abbrev pub accept_nonce : ServerState → ℕ → StackNonce → Result ℕ → Turn
  accept_nonce s a nonce (ok addr) =
      send_ack (record_nonce addr nonce s) a (w.serialize server_nonce_ack)
  accept_nonce s a nonce (err e) = finished s (err (wrap_err e (eyre "mismatched addr types")))

  abbrev pub negotiate_message : Stack → ServerState → ℕ → Result NegotiateMsg → Turn
  negotiate_message stack s a (err e) = continues s
  negotiate_message stack s a (ok (server_nonce addr nonce)) =
      accept_nonce s a nonce (w.deserialize_addr addr)
  negotiate_message stack s a (ok (client_offer client_offers)) =
      answer_offer s a (monomorphize stack client_offers (w.serialize_addr a))
  negotiate_message stack s a (ok (client_nonce offer)) =
      answer_nonce stack s a (monomorphize stack (offer ∷ []) (w.serialize_addr a))
  negotiate_message stack s a (ok m) = continues s

  abbrev pub handle_message : Stack → ServerState → ℕ → Bytes → Option StackNonce → Turn
  handle_message stack s a buf (some nonce) = apply_pending s a buf (apply stack nonce)
  handle_message stack s a buf none = negotiate_message stack s a (w.deserialize buf)

  -- One round of the loop of `negotiate_server_connection`.
  unfoldable pub server_turn : Stack → ServerState → Event → Turn
  server_turn stack s (received a buf) = handle_message stack s a buf (get a s.pending)
  server_turn stack s (failed e) = finished s (err e)
  server_turn stack s timed_out = continues s
  server_turn stack s (recorded addr nonce) = continues (record_nonce addr nonce s)

  abbrev pub nonce_message : ServerState → ℕ → Result NegotiateMsg → Turn
  nonce_message s a (err e) = finished s (err (wrap_err e (eyre "offer deserialize failed")))
  nonce_message s a (ok (server_nonce addr nonce)) =
      accept_nonce s a nonce (w.deserialize_addr addr)
  nonce_message s a (ok m) = nonces s

  -- One round of the loop of `process_nonces_connection`, which only an error ends.
  unfoldable pub nonces_turn : ServerState → Event → Turn
  nonces_turn s (received a buf) = nonce_message s a (w.deserialize buf)
  nonces_turn s (failed e) = finished s (err e)
  nonces_turn s timed_out = finished s (err (eyre "deadline has elapsed"))
  nonces_turn s (recorded addr nonce) = nonces (record_nonce addr nonce s)

  -- Its caller returns `None` on the error.
  unfoldable pub process_nonces_connection : ServerState → List Event → Run
  process_nonces_connection s [] = waiting s
  process_nonces_connection s (e ∷ es) = elim (nonces_turn s e) [
    | continues s' ↦ process_nonces_connection s' es
    | nonces s' ↦ process_nonces_connection s' es
    | finished s' r ↦ ended s' (ok none)
    | panicked ↦ aborted
  ]

  unfoldable pub negotiate_server_connection : Stack → ServerState → List Event → Run
  negotiate_server_connection stack s [] = waiting s
  negotiate_server_connection stack s (e ∷ es) = elim (server_turn stack s e) [
    | continues s' ↦ negotiate_server_connection stack s' es
    | nonces s' ↦ process_nonces_connection s' es
    | finished s' r ↦ ended s' r
    | panicked ↦ aborted
  ]
