-- ===== src/Negotiate/Server/Writes.antt =====
-- One round of the server's loops writes to the map of pending connections only what was announced.
use tbm.Prelude.{
  ℕ, ltb, ◌≡◌, refl, [], ◌∷◌, Option, none, some, get, insert, length, Bytes, Result, ok, err,
  Outcome, returns, panics, Bool-cases, inl, inr, ◌⊎◌,
}
use tbm.Negotiate.Types.{StackNonce, Stack, Picked}
use tbm.Negotiate.Offers.{offers}
use tbm.Negotiate.Apply.{ApplyResult, apply}
use tbm.Negotiate.Monomorphize.{
  NegotiateMsg, Monomorphized, monomorphize, client_offer, server_reply, server_nonce, client_nonce,
  server_nonce_ack,
}
use tbm.Negotiate.Server.{
  Wire, ServerState, Event, received, failed, timed_out, recorded, Connection, Turn, continues,
  nonces, finished, panicked, record_nonce, injected, wrapped_applied, apply_pending,
  wrapped_picked, after_send, respond, inform_picked, question, unwrap, answer_offer, answer_nonce,
  ack_sent, send_ack, accept_nonce, negotiate_message, handle_message, server_turn, nonce_message,
  nonces_turn,
}

-- The address and nonce that an event announces: by a `ServerNonce`, or through another connection.
abbrev pub announced_addr : StackNonce → Result ℕ → Option (ℕ × StackNonce)
announced_addr nonce (ok a) = some (a, nonce)
announced_addr nonce (err e) = none

abbrev pub announced_by : Wire → Result NegotiateMsg → Option (ℕ × StackNonce)
announced_by w (ok (server_nonce addr nonce)) = announced_addr nonce (w.deserialize_addr addr)
announced_by w _ = none

abbrev pub announcement : Wire → Event → Option (ℕ × StackNonce)
announcement w (received a buf) = announced_by w (w.deserialize buf)
announcement w (recorded a nonce) = some (a, nonce)
announcement w _ = none

-- A property of the state that a round leaves.
abbrev pub Leaves : (ServerState → Type 0) → Turn → Type 0
Leaves P (continues s) = P s
Leaves P (nonces s) = P s
Leaves P (finished s r) = P s
Leaves P panicked = Unit

-- The map is as it was, or has what was announced.
abbrev pub Writes : Option (ℕ × StackNonce) → ServerState → ServerState → Type 0
Writes news s t =
    (t.pending ≡ s.pending)
    ⊎ ((a : ℕ) × (nonce : StackNonce) × (news ≡ some (a, nonce))
        × (t.pending ≡ insert a nonce s.pending))

module _ (w : Wire) (news : Option (ℕ × StackNonce)) (s : ServerState) where
  injected-Writes :
      (t : ServerState) (c : Connection) (r : Result {0} Unit)
      → Writes news s t
      → Leaves (Writes news s) (injected w t c r)
  injected-Writes t c (ok _) h = h
  injected-Writes t c (err e) h = h

  wrapped_applied-Writes :
      (t : ServerState) (a : ℕ) (buf : Bytes) (p : Picked) (r : Result {0} Unit)
      → Writes news s t
      → Leaves (Writes news s) (wrapped_applied w t a buf p r)
  wrapped_applied-Writes t a buf p (ok _) h = injected-Writes t _ (w.inject a buf) h
  wrapped_applied-Writes t a buf p (err e) h = h

  apply_pending-Writes :
      (t : ServerState) (a : ℕ) (buf : Bytes) (r : Result ApplyResult)
      → Writes news s t
      → Leaves (Writes news s) (apply_pending w t a buf r)
  apply_pending-Writes t a buf (ok ar) h =
      wrapped_applied-Writes t a buf ar.applied (w.connect_wrap ar.applied) h
  apply_pending-Writes t a buf (err e) h = h

  wrapped_picked-Writes :
      (t : ServerState) (p : Picked) (r : Result {0} Unit)
      → Writes news s t
      → Leaves (Writes news s) (wrapped_picked w t p r)
  wrapped_picked-Writes t p (ok _) h = h
  wrapped_picked-Writes t p (err e) h = h

  after_send-Writes :
      (t : ServerState) (a : ℕ) (buf : Bytes) (p : Option Picked) (r : Result {0} Unit)
      → Writes news s t
      → Leaves (Writes news s) (after_send w t a buf p r)
  after_send-Writes t a buf none (ok _) h = h
  after_send-Writes t a buf (some p) (ok _) h = wrapped_picked-Writes _ p (w.connect_wrap p) h
  after_send-Writes t a buf p (err e) h = h

  respond-Writes :
      (t : ServerState) (a : ℕ) (p : Option Picked) (out : Outcome Bytes)
      → Writes news s t
      → Leaves (Writes news s) (respond w t a p out)
  respond-Writes t a p panics h = tt
  respond-Writes t a p (returns (err e)) h = h
  respond-Writes t a p (returns (ok buf)) h = elim (Bool-cases (ltb (length buf) 1500)) [
    | inl e ↦ rw e (after_send-Writes t a buf p (w.send a buf) h)
    | inr e ↦ rw e tt
  ]

  inform_picked-Writes :
      (t : ServerState) (a : ℕ) (p : Picked) (unwraps : Result Bytes → Outcome Bytes)
      (m : NegotiateMsg) (r : Result Bytes)
      → Writes news s t
      → Leaves (Writes news s) (inform_picked w t a p unwraps m r)
  inform_picked-Writes t a p unwraps m (ok buf) h =
      respond-Writes _ a (some p) (unwraps (w.serialize m)) h
  inform_picked-Writes t a p unwraps m (err e) h = h

  answer_offer-Writes :
      (t : ServerState) (a : ℕ) (out : Outcome Monomorphized)
      → Writes news s t
      → Leaves (Writes news s) (answer_offer w t a out)
  answer_offer-Writes t a panics h = tt
  answer_offer-Writes t a (returns (ok m)) h =
      inform_picked-Writes t a m.new_stack question (server_reply (ok m.picked_offers))
        (w.serialize m.nonce) h
  answer_offer-Writes t a (returns (err e)) h =
      respond-Writes t a none (question (w.serialize (server_reply (err e)))) h

  answer_nonce-Writes :
      (stack : Stack) (t : ServerState) (a : ℕ) (out : Outcome Monomorphized)
      → Writes news s t
      → Leaves (Writes news s) (answer_nonce w stack t a out)
  answer_nonce-Writes stack t a panics h = tt
  answer_nonce-Writes stack t a (returns (ok m)) h =
      inform_picked-Writes t a m.new_stack unwrap server_nonce_ack (w.serialize m.nonce) h
  answer_nonce-Writes stack t a (returns (err e)) h =
      respond-Writes t a none (unwrap (w.serialize (server_reply (ok (offers stack))))) h

  ack_sent-Writes :
      (t : ServerState) (a : ℕ) (ack : Bytes) (r : Result {0} Unit)
      → Writes news s t
      → Leaves (Writes news s) (ack_sent w t a ack r)
  ack_sent-Writes t a ack (ok _) h = h
  ack_sent-Writes t a ack (err e) h = h

  send_ack-Writes :
      (t : ServerState) (a : ℕ) (r : Result Bytes)
      → Writes news s t
      → Leaves (Writes news s) (send_ack w t a r)
  send_ack-Writes t a (ok ack) h = ack_sent-Writes t a ack (w.send a ack) h
  send_ack-Writes t a (err e) h = tt

accept_nonce-Writes :
    (w : Wire) (s : ServerState) (a : ℕ) (nonce : StackNonce) (r : Result ℕ)
    → Leaves (Writes (announced_addr nonce r) s) (accept_nonce w s a nonce r)
accept_nonce-Writes w s a nonce (ok addr) =
    send_ack-Writes w (some (addr, nonce)) s (record_nonce addr nonce s) a
      (w.serialize server_nonce_ack) (inr (addr, nonce, refl, refl))
accept_nonce-Writes w s a nonce (err e) = inl refl

negotiate_message-Writes :
    (w : Wire) (stack : Stack) (s : ServerState) (a : ℕ) (r : Result NegotiateMsg)
    → Leaves (Writes (announced_by w r) s) (negotiate_message w stack s a r)
negotiate_message-Writes w stack s a (err e) = inl refl
negotiate_message-Writes w stack s a (ok (server_nonce addr nonce)) =
    accept_nonce-Writes w s a nonce (w.deserialize_addr addr)
negotiate_message-Writes w stack s a (ok (client_offer os)) =
    answer_offer-Writes w none s s a (monomorphize stack os (w.serialize_addr a)) (inl refl)
negotiate_message-Writes w stack s a (ok (client_nonce o)) =
    answer_nonce-Writes w none s stack s a (monomorphize stack (o ∷ []) (w.serialize_addr a))
      (inl refl)
negotiate_message-Writes w stack s a (ok (server_reply r)) = inl refl
negotiate_message-Writes w stack s a (ok server_nonce_ack) = inl refl

handle_message-Writes :
    (w : Wire) (stack : Stack) (s : ServerState) (a : ℕ) (buf : Bytes) (o : Option StackNonce)
    → Leaves (Writes (announced_by w (w.deserialize buf)) s) (handle_message w stack s a buf o)
handle_message-Writes w stack s a buf none =
    negotiate_message-Writes w stack s a (w.deserialize buf)
handle_message-Writes w stack s a buf (some nonce) =
    apply_pending-Writes w (announced_by w (w.deserialize buf)) s s a buf (apply stack nonce)
      (inl refl)

pub server_turn-Writes :
    (w : Wire) (stack : Stack) (s : ServerState) (e : Event)
    → Leaves (Writes (announcement w e) s) (server_turn w stack s e)
unfolding server_turn
server_turn-Writes w stack s (received a buf) =
    handle_message-Writes w stack s a buf (get a s.pending)
server_turn-Writes w stack s (failed e) = inl refl
server_turn-Writes w stack s timed_out = inl refl
server_turn-Writes w stack s (recorded a nonce) = inr (a, nonce, refl, refl)

nonce_message-Writes :
    (w : Wire) (s : ServerState) (a : ℕ) (r : Result NegotiateMsg)
    → Leaves (Writes (announced_by w r) s) (nonce_message w s a r)
nonce_message-Writes w s a (err e) = inl refl
nonce_message-Writes w s a (ok (server_nonce addr nonce)) =
    accept_nonce-Writes w s a nonce (w.deserialize_addr addr)
nonce_message-Writes w s a (ok (client_offer os)) = inl refl
nonce_message-Writes w s a (ok (client_nonce o)) = inl refl
nonce_message-Writes w s a (ok (server_reply r)) = inl refl
nonce_message-Writes w s a (ok server_nonce_ack) = inl refl

pub nonces_turn-Writes :
    (w : Wire) (s : ServerState) (e : Event)
    → Leaves (Writes (announcement w e) s) (nonces_turn w s e)
unfolding nonces_turn
nonces_turn-Writes w s (received a buf) = nonce_message-Writes w s a (w.deserialize buf)
nonces_turn-Writes w s (failed e) = inl refl
nonces_turn-Writes w s timed_out = inl refl
nonces_turn-Writes w s (recorded a nonce) = inr (a, nonce, refl, refl)
