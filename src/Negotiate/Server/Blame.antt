-- ===== src/Negotiate/Server/Blame.antt =====
-- One round of the server's loops panics only for an answer.
use tbm.Prelude.{
  ℕ, ltb, ◌≡◌, ◌≢◌, refl, [], ◌∷◌, Option, none, some, get, length, Bytes, Result, ok, err, Outcome,
  returns, panics, arith, Bool-cases, inl, inr, ◌≤◌, ◌⊎◌, Report,
}
use tbm.Negotiate.Types.{StackNonce, Stack, Picked}
use tbm.Negotiate.Offers.{offers}
use tbm.Negotiate.Apply.{ApplyResult, apply}
use tbm.Negotiate.Monomorphize.{
  NegotiateMsg, Monomorphized, monomorphize, client_offer, server_reply, server_nonce, client_nonce,
  server_nonce_ack,
}
use tbm.Negotiate.Monomorphize.Nonce.{monomorphize_no_panic}
use tbm.Negotiate.Server.{
  Wire, ServerState, Event, received, failed, timed_out, recorded, applied, Turn, panicked,
  record_nonce, add_informed, injected, wrapped_applied, apply_pending, wrapped_picked, after_send,
  respond, inform_picked, question, unwrap, answer_offer, answer_nonce, ack_sent, send_ack,
  accept_nonce, negotiate_message, handle_message, server_turn, nonce_message, nonces_turn,
}

-- A message that serialises to more bytes than a packet has.
abbrev pub TooLong : Wire → NegotiateMsg → Type 0
TooLong w m = (buf : Bytes) × (w.serialize m ≡ ok buf) × (1500 ≤ length buf)

-- A message that is too long, or does not serialise.
abbrev pub Unsent : Wire → NegotiateMsg → Type 0
Unsent w m = TooLong w m ⊎ ((e : Report) × (w.serialize m ≡ err e))

-- The reply to an offer, by what the server makes of it, is too long.
abbrev pub BlamedReply : Wire → Outcome Monomorphized → Type 0
BlamedReply w panics = ⊥
BlamedReply w (returns (err e)) = TooLong w (server_reply (err e))
BlamedReply w (returns (ok m)) = TooLong w (server_reply (ok m.picked_offers))

-- The answer to a client that knows its nonce.
abbrev pub BlamedAck : Wire → Stack → Outcome Monomorphized → Type 0
BlamedAck w stack panics = ⊥
BlamedAck w stack (returns (err e)) = Unsent w (server_reply (ok (offers stack)))
BlamedAck w stack (returns (ok m)) = Unsent w server_nonce_ack

abbrev pub BlamedMessage : Wire → Stack → ℕ → Result NegotiateMsg → Type 0
BlamedMessage w stack a (ok (client_offer os)) =
    BlamedReply w (monomorphize stack os (w.serialize_addr a))
BlamedMessage w stack a (ok (client_nonce o)) =
    BlamedAck w stack (monomorphize stack (o ∷ []) (w.serialize_addr a))
BlamedMessage w stack a (ok (server_nonce addr nonce)) = Unsent w server_nonce_ack
BlamedMessage w stack a (ok (server_reply r)) = ⊥
BlamedMessage w stack a (ok server_nonce_ack) = ⊥
BlamedMessage w stack a (err e) = ⊥

-- The server's own answer to this event is to blame for the panic.
abbrev pub BlamedOn : Wire → Stack → Event → Type 0
BlamedOn w stack (received a buf) = BlamedMessage w stack a (w.deserialize buf)
BlamedOn w stack (failed e) = ⊥
BlamedOn w stack timed_out = ⊥
BlamedOn w stack (recorded addr nonce) = ⊥

-- What is to blame for the panic, if the round panics.
abbrev pub Calm : Type 0 → Turn → Type 0
Calm B panicked = B
Calm B _ = Unit

module _ (w : Wire) where
  module _ (B : Type 0) where
    apply_pending-Calm :
        (s : ServerState) (a : ℕ) (buf : Bytes) (r : Result ApplyResult)
        → Calm B (apply_pending w s a buf r)
    apply_pending-Calm s a buf (err e) = tt
    apply_pending-Calm s a buf (ok ar) =
        of_wrap (w.connect_wrap ar.applied) (of_inject (w.inject a buf))
      where
        of_inject : (r : Result {0} Unit) → Calm B (injected w s (applied ar.applied a buf) r)
        of_inject (ok _) = tt
        of_inject (err e) = tt

        of_wrap :
            (r : Result {0} Unit)
            → Calm B (injected w s (applied ar.applied a buf) (w.inject a buf))
            → Calm B (wrapped_applied w s a buf ar.applied r)
        of_wrap (ok _) k = k
        of_wrap (err e) k = tt

    wrapped_picked-Calm :
        (s : ServerState) (p : Picked) (r : Result {0} Unit) → Calm B (wrapped_picked w s p r)
    wrapped_picked-Calm s p (ok _) = tt
    wrapped_picked-Calm s p (err e) = tt

    after_send-Calm :
        (s : ServerState) (a : ℕ) (buf : Bytes) (new : Option Picked) (r : Result {0} Unit)
        → Calm B (after_send w s a buf new r)
    after_send-Calm s a buf new (err e) = tt
    after_send-Calm s a buf none (ok _) = tt
    after_send-Calm s a buf (some p) (ok _) = wrapped_picked-Calm _ p (w.connect_wrap p)

    sent-Calm :
        (s : ServerState) (a : ℕ) (new : Option Picked) (m : NegotiateMsg) (buf : Bytes)
        → w.serialize m ≡ ok buf
        → (TooLong w m → B)
        → Calm B (respond w s a new (returns (ok buf)))
    sent-Calm s a new m buf h blame = elim (Bool-cases (ltb (length buf) 1500)) [
      | inl e ↦ rw e (after_send-Calm s a buf new (w.send a buf))
      | inr e ↦ rw e (blame (buf, h, ground arith))
    ]

    question-Calm :
        (s : ServerState) (a : ℕ) (new : Option Picked) (m : NegotiateMsg) (r : Result Bytes)
        → w.serialize m ≡ r
        → (TooLong w m → B)
        → Calm B (respond w s a new (question r))
    question-Calm s a new m (ok buf) h blame = sent-Calm s a new m buf h blame
    question-Calm s a new m (err e) h blame = tt

    unwrap-Calm :
        (s : ServerState) (a : ℕ) (new : Option Picked) (m : NegotiateMsg) (r : Result Bytes)
        → w.serialize m ≡ r
        → (Unsent w m → B)
        → Calm B (respond w s a new (unwrap r))
    unwrap-Calm s a new m (ok buf) h blame = sent-Calm s a new m buf h (λ long. blame (inl long))
    unwrap-Calm s a new m (err e) h blame = blame (inr (e, h))

    ack_sent-Calm :
        (s : ServerState) (a : ℕ) (ack : Bytes) (r : Result {0} Unit)
        → Calm B (ack_sent w s a ack r)
    ack_sent-Calm s a ack (ok _) = tt
    ack_sent-Calm s a ack (err e) = tt

  answer_offer-Calm :
      (s : ServerState) (a : ℕ) (out : Outcome Monomorphized)
      → out ≢ panics
      → Calm (BlamedReply w out) (answer_offer w s a out)
  answer_offer-Calm s a panics h = absurd (h refl)
  answer_offer-Calm s a (returns (err r)) h =
      question-Calm (TooLong w (server_reply (err r))) s a none (server_reply (err r))
        (w.serialize (server_reply (err r))) refl (λ long. long)
  answer_offer-Calm s a (returns (ok m)) h = of_nonce (w.serialize m.nonce)
    where
      of_nonce :
          (r : Result Bytes)
          → Calm
              (TooLong w (server_reply (ok m.picked_offers)))
              (inform_picked w s a m.new_stack question (server_reply (ok m.picked_offers)) r)
      of_nonce (err e) = tt
      of_nonce (ok nonce_buf) =
          let reply = server_reply (ok m.picked_offers) in
          question-Calm (TooLong w reply) (add_informed nonce_buf s) a (some m.new_stack) reply
            (w.serialize reply) refl (λ long. long)

  answer_nonce-Calm :
      (stack : Stack) (s : ServerState) (a : ℕ) (out : Outcome Monomorphized)
      → out ≢ panics
      → Calm (BlamedAck w stack out) (answer_nonce w stack s a out)
  answer_nonce-Calm stack s a panics h = absurd (h refl)
  answer_nonce-Calm stack s a (returns (err r)) h =
      let reply = server_reply (ok (offers stack)) in
      unwrap-Calm (Unsent w reply) s a none reply (w.serialize reply) refl (λ unsent. unsent)
  answer_nonce-Calm stack s a (returns (ok m)) h = of_nonce (w.serialize m.nonce)
    where
      of_nonce :
          (r : Result Bytes)
          → Calm
              (Unsent w server_nonce_ack)
              (inform_picked w s a m.new_stack unwrap server_nonce_ack r)
      of_nonce (err e) = tt
      of_nonce (ok nonce_buf) =
          unwrap-Calm (Unsent w server_nonce_ack) (add_informed nonce_buf s) a (some m.new_stack)
            server_nonce_ack (w.serialize server_nonce_ack) refl (λ unsent. unsent)

  accept_nonce-Calm :
      (s : ServerState) (a : ℕ) (nonce : StackNonce) (r : Result ℕ)
      → Calm (Unsent w server_nonce_ack) (accept_nonce w s a nonce r)
  accept_nonce-Calm s a nonce (err e) = tt
  accept_nonce-Calm s a nonce (ok addr) = of_ack (w.serialize server_nonce_ack) refl
    where
      of_ack :
          (r : Result Bytes)
          → w.serialize server_nonce_ack ≡ r
          → Calm (Unsent w server_nonce_ack) (send_ack w (record_nonce addr nonce s) a r)
      of_ack (ok ack) h =
          ack_sent-Calm (Unsent w server_nonce_ack) (record_nonce addr nonce s) a ack (w.send a ack)
      of_ack (err e) h = inr (e, h)

  negotiate_message-Calm :
      (stack : Stack) (s : ServerState) (a : ℕ) (r : Result NegotiateMsg)
      → Calm (BlamedMessage w stack a r) (negotiate_message w stack s a r)
  negotiate_message-Calm stack s a (err e) = tt
  negotiate_message-Calm stack s a (ok (server_nonce addr nonce)) =
      accept_nonce-Calm s a nonce (w.deserialize_addr addr)
  negotiate_message-Calm stack s a (ok (client_offer os)) =
      answer_offer-Calm s a (monomorphize stack os (w.serialize_addr a))
        (monomorphize_no_panic stack os (w.serialize_addr a))
  negotiate_message-Calm stack s a (ok (client_nonce o)) =
      answer_nonce-Calm stack s a (monomorphize stack (o ∷ []) (w.serialize_addr a))
        (monomorphize_no_panic stack (o ∷ []) (w.serialize_addr a))
  negotiate_message-Calm stack s a (ok (server_reply r)) = tt
  negotiate_message-Calm stack s a (ok server_nonce_ack) = tt

  handle_message-Calm :
      (stack : Stack) (s : ServerState) (a : ℕ) (buf : Bytes) (o : Option StackNonce)
      → Calm (BlamedMessage w stack a (w.deserialize buf)) (handle_message w stack s a buf o)
  handle_message-Calm stack s a buf none = negotiate_message-Calm stack s a (w.deserialize buf)
  handle_message-Calm stack s a buf (some n) =
      apply_pending-Calm (BlamedMessage w stack a (w.deserialize buf)) s a buf (apply stack n)

  pub server_turn-Calm :
      (stack : Stack) (s : ServerState) (e : Event)
      → Calm (BlamedOn w stack e) (server_turn w stack s e)
  unfolding server_turn
  server_turn-Calm stack s (received a buf) = handle_message-Calm stack s a buf (get a s.pending)
  server_turn-Calm stack s (failed e) = tt
  server_turn-Calm stack s timed_out = tt
  server_turn-Calm stack s (recorded addr nonce) = tt

  pub nonces_turn-Calm :
      (stack : Stack) (s : ServerState) (e : Event) → Calm (BlamedOn w stack e) (nonces_turn w s e)
  unfolding nonces_turn
  nonces_turn-Calm stack s (received a buf) = of_message (w.deserialize buf)
    where
      of_message :
          (r : Result NegotiateMsg) → Calm (BlamedMessage w stack a r) (nonce_message w s a r)
      of_message (err e) = tt
      of_message (ok (server_nonce addr nonce)) =
          accept_nonce-Calm s a nonce (w.deserialize_addr addr)
      of_message (ok (client_offer os)) = tt
      of_message (ok (client_nonce o)) = tt
      of_message (ok (server_reply r)) = tt
      of_message (ok server_nonce_ack) = tt
  nonces_turn-Calm stack s (failed e) = tt
  nonces_turn-Calm stack s timed_out = tt
  nonces_turn-Calm stack s (recorded addr nonce) = tt
