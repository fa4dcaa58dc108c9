-- ===== src/Negotiate/Server/Connected.antt =====
-- Every connection of a picked stack comes from a handshake.
use tbm.Prelude.{
  ℕ, ◌≡◌, refl, ◌∙◌, List, [], ◌∷◌, Memᴰ, Option, none, some, get, Bytes, Result, ok, err,
}
use tbm.Negotiate.Types.{StackNonce, Stack, Picked}
use tbm.Negotiate.Apply.{ApplyResult, apply}
use tbm.Negotiate.Monomorphize.{
  NegotiateMsg, monomorphize, client_offer, server_reply, server_nonce, client_nonce,
  server_nonce_ack,
}
use tbm.Negotiate.Server.{
  Wire, ServerState, Event, received, failed, timed_out, recorded, Connection, picked, applied,
  Turn, continues, nonces, finished, panicked, Run, ended, aborted, record_nonce, injected,
  wrapped_applied, apply_pending, ack_sent, send_ack, accept_nonce, negotiate_message,
  handle_message, server_turn, nonces_turn, process_nonces_connection, negotiate_server_connection,
}
use tbm.Negotiate.Server.Negotiated.{Negotiation, Picks, answer_offer-inv, answer_nonce-inv}

-- The rounds that return no picked stack.
wrapped_applied-none :
    (w : Wire) (s t : ServerState) (a : ℕ) (buf : Bytes) (q p : Picked) (r : Result {0} Unit)
    → Picks t p (wrapped_applied w s a buf q r)
    → ⊥
wrapped_applied-none w s t a buf q p (err e) h = cc
wrapped_applied-none w s t a buf q p (ok _) h = of_inject (w.inject a buf) h
  where
    of_inject : (r : Result {0} Unit) → Picks t p (injected w s (applied q a buf) r) → ⊥
    of_inject (ok _) k = cc
    of_inject (err e) k = cc

apply_pending-none :
    (w : Wire) (s t : ServerState) (a : ℕ) (buf : Bytes) (p : Picked) (r : Result ApplyResult)
    → Picks t p (apply_pending w s a buf r)
    → ⊥
apply_pending-none w s t a buf p (err e) h = cc
apply_pending-none w s t a buf p (ok ar) h =
    wrapped_applied-none w s t a buf ar.applied p (w.connect_wrap ar.applied) h

accept_nonce-none :
    (w : Wire) (s t : ServerState) (a : ℕ) (nonce : StackNonce) (p : Picked) (r : Result ℕ)
    → Picks t p (accept_nonce w s a nonce r)
    → ⊥
accept_nonce-none w s t a nonce p (err e) h = cc
accept_nonce-none w s t a nonce p (ok addr) h = of_ack (w.serialize server_nonce_ack) h
  where
    of_sent :
        (ack : Bytes) (r : Result {0} Unit)
        → Picks t p (ack_sent w (record_nonce addr nonce s) a ack r)
        → ⊥
    of_sent ack (ok _) k = cc
    of_sent ack (err e) k = cc

    of_ack : (r : Result Bytes) → Picks t p (send_ack w (record_nonce addr nonce s) a r) → ⊥
    of_ack (err e) k = cc
    of_ack (ok ack) k = of_sent ack (w.send a ack) k

negotiate_message-inv :
    (w : Wire) (stack : Stack) (s t : ServerState) (a : ℕ) (p : Picked) (r : Result NegotiateMsg)
    → Picks t p (negotiate_message w stack s a r)
    → Negotiation w stack a r t p
negotiate_message-inv w stack s t a p (err e) h = absurd (cc)
negotiate_message-inv w stack s t a p (ok (server_nonce addr nonce)) h =
    absurd (accept_nonce-none w s t a nonce p (w.deserialize_addr addr) h)
negotiate_message-inv w stack s t a p (ok (client_offer os)) h =
    answer_offer-inv w stack s t a os p (monomorphize stack os (w.serialize_addr a)) refl h
negotiate_message-inv w stack s t a p (ok (client_nonce o)) h =
    answer_nonce-inv w stack s t a o p (monomorphize stack (o ∷ []) (w.serialize_addr a)) refl h
negotiate_message-inv w stack s t a p (ok (server_reply r)) h = absurd (cc)
negotiate_message-inv w stack s t a p (ok server_nonce_ack) h = absurd (cc)

handle_message-inv :
    (w : Wire) (stack : Stack) (s t : ServerState) (a : ℕ) (buf : Bytes) (p : Picked)
    (o : Option StackNonce)
    → Picks t p (handle_message w stack s a buf o)
    → Negotiation w stack a (w.deserialize buf) t p
handle_message-inv w stack s t a buf p none h =
    negotiate_message-inv w stack s t a p (w.deserialize buf) h
handle_message-inv w stack s t a buf p (some nonce) h =
    absurd (apply_pending-none w s t a buf p (apply stack nonce) h)

-- A handshake for one of the messages received.
pub record Heard (w : Wire) (stack : Stack) (es : List Event) (t : ServerState) (p : Picked)
    : Type 0 where
  pub a : ℕ
  pub buf : Bytes
  pub heard : Memᴰ (received a buf) es
  pub negotiation : Negotiation w stack a (w.deserialize buf) t p

server_turn-inv :
    (w : Wire) (stack : Stack) (s t : ServerState) (e : Event) (es : List Event) (p : Picked)
    → Picks t p (server_turn w stack s e)
    → Heard w stack (e ∷ es) t p
unfolding server_turn
server_turn-inv w stack s t (received a buf) es p h = record {
  a = a;
  buf = buf;
  heard = Memᴰ.head refl;
  negotiation = handle_message-inv w stack s t a buf p (get a s.pending) h;
}
server_turn-inv w stack s t (failed e) es p h = absurd (cc)
server_turn-inv w stack s t timed_out es p h = absurd (cc)
server_turn-inv w stack s t (recorded addr nonce) es p h = absurd (cc)

-- A run that ends with the connection of a picked stack.
abbrev pub Connects : ServerState → Picked → Run → Type 0
Connects t p run = run ≡ ended t (ok (some (picked p)))

nonces-none :
    (w : Wire) (s t : ServerState) (es : List Event) (p : Picked)
    → Connects t p (process_nonces_connection w s es)
    → ⊥
unfolding process_nonces_connection
nonces-none w s t [] p h = cc
nonces-none w s t (e ∷ es) p h = of_turn (nonces_turn w s e) h (λ m. nonces-none w m t es p)
  where
    of_turn :
        (turn : Turn)
        → Connects t p (elim turn [
          | continues m ↦ process_nonces_connection w m es
          | nonces m ↦ process_nonces_connection w m es
          | finished m r ↦ ended m (ok none)
          | panicked ↦ aborted
        ])
        → ((m : ServerState) → Connects t p (process_nonces_connection w m es) → ⊥)
        → ⊥
    of_turn (continues m) k rest = rest m k
    of_turn (nonces m) k rest = rest m k
    of_turn (finished m r) k rest = cc
    of_turn panicked k rest = cc

later :
    (w : Wire) (stack : Stack) (e : Event) (es : List Event) (t : ServerState) (p : Picked)
    → Heard w stack es t p
    → Heard w stack (e ∷ es) t p
later w stack e es t p h = record {
  a = h.a;
  buf = h.buf;
  heard = Memᴰ.tail h.heard;
  negotiation = h.negotiation;
}

finished_picks :
    (m t : ServerState) (r : Result (Option Connection)) (p : Picked)
    → Connects t p (ended m r)
    → finished m r ≡ finished t (ok (some (picked p)))
finished_picks m t r p h = cc

-- Where the server returns the connection of a picked stack, one of the messages that it received was
-- a `ClientOffer` or a `ClientNonce` for which `monomorphize` picked that stack; the last message that
-- it sent is the answer to that message's sender, with the client's stacks that match for a
-- `ClientOffer` and the acknowledgement for a `ClientNonce`, and fits in a packet; and the stack was
-- told the nonce.
pub connected-Heard :
    (w : Wire) (stack : Stack) (es : List Event) (s t : ServerState) (p : Picked)
    → Connects t p (negotiate_server_connection w stack s es)
    → Heard w stack es t p
unfolding negotiate_server_connection
connected-Heard w stack [] s t p h = absurd (cc)
connected-Heard w stack (e ∷ es) s t p h =
    of_turn (server_turn w stack s e) refl h (λ m. connected-Heard w stack es m t p)
  where
    of_turn :
        (turn : Turn)
        → server_turn w stack s e ≡ turn
        → Connects t p (elim turn [
          | continues m ↦ negotiate_server_connection w stack m es
          | nonces m ↦ process_nonces_connection w m es
          | finished m r ↦ ended m r
          | panicked ↦ aborted
        ])
        → ((m : ServerState)
            → Connects t p (negotiate_server_connection w stack m es)
            → Heard w stack es t p)
        → Heard w stack (e ∷ es) t p
    of_turn (continues m) k r rest = later w stack e es t p (rest m r)
    of_turn (nonces m) k r rest = absurd (nonces-none w m t es p r)
    of_turn (finished m x) k r rest =
        server_turn-inv w stack s t e es p (k ∙ finished_picks m t x p r)
    of_turn panicked k r rest = absurd (cc)
