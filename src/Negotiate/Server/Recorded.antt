-- ===== src/Negotiate/Server/Recorded.antt =====
-- What a connection that carries nonces records and acknowledges, and the connections that follow.
use tbm.Prelude.{
  ℕ, ◌≡◌, refl, sym, ap, ◌∙◌, List, [], ◌∷◌, ◌++◌, Option, none, some, get, get-insert, Bytes,
  Result, ok, err,
}
use mathlib.Core.List.{append_assoc, append-nil}
use tbm.Negotiate.Types.{StackNonce, Stack}
use tbm.Negotiate.Apply.{ApplyResult, apply}
use tbm.Negotiate.Monomorphize.{
  NegotiateMsg, server_nonce, server_nonce_ack, client_offer, client_nonce, server_reply,
}
use tbm.Negotiate.Server.{
  Wire, ServerState, Event, received, failed, timed_out, recorded, applied, Turn, Connection,
  continues, nonces, finished, panicked, waiting, ended, aborted, record_nonce, ack_sent,
  accept_nonce, nonce_message, nonces_turn, process_nonces_connection, negotiate_server_connection,
  server_turn,
}
use tbm.Negotiate.Server.Writes.{announcement, announced_by, announced_addr}
use tbm.Negotiate.Server.Pending.{superseded, last_announced, acked, event_acks, acks}

-- A round that keeps the loop going records the announcement and acknowledges it.
abbrev Records : Option (ℕ × StackNonce) → List (ℕ × Bytes) → ServerState → Turn → Type 0
Records news due s (nonces t) =
    ((a : ℕ) → get a t.pending ≡ superseded a news (get a s.pending)) × (t.sent ≡ s.sent ++ due)
Records news due s (continues t) = ⊥
Records news due s (finished t r) = Unit
Records news due s panicked = Unit

ack_sent-Records :
    (w : Wire) (s : ServerState) (a addr : ℕ) (nonce : StackNonce) (ack : Bytes)
    (r : Result {0} Unit)
    → Records
        (some (addr, nonce))
        ((a, ack) ∷ [])
        s
        (ack_sent w (record_nonce addr nonce s) a ack r)
ack_sent-Records w s a addr nonce ack (ok _) = ((λ b. get-insert b addr nonce s.pending), refl)
ack_sent-Records w s a addr nonce ack (err e) = tt

nothing_due : (s : ServerState) → Records none [] s (nonces s)
nothing_due s = ((λ b. refl), sym (append-nil s.sent))

accept_nonce-Records :
    (w : Wire) (s : ServerState) (a : ℕ) (nonce : StackNonce) (ack : Bytes) (r : Result ℕ)
    → w.serialize server_nonce_ack ≡ ok ack
    → Records
        (announced_addr nonce r)
        (acked a ack (announced_addr nonce r))
        s
        (accept_nonce w s a nonce r)
accept_nonce-Records w s a nonce ack (ok addr) h =
    rw h (ack_sent-Records w s a addr nonce ack (w.send a ack))
accept_nonce-Records w s a nonce ack (err e) h = tt

nonce_message-Records :
    (w : Wire) (s : ServerState) (a : ℕ) (ack : Bytes) (r : Result NegotiateMsg)
    → w.serialize server_nonce_ack ≡ ok ack
    → Records (announced_by w r) (acked a ack (announced_by w r)) s (nonce_message w s a r)
nonce_message-Records w s a ack (err e) h = tt
nonce_message-Records w s a ack (ok (server_nonce addr nonce)) h =
    accept_nonce-Records w s a nonce ack (w.deserialize_addr addr) h
nonce_message-Records w s a ack (ok (client_offer os)) h = nothing_due s
nonce_message-Records w s a ack (ok (client_nonce o)) h = nothing_due s
nonce_message-Records w s a ack (ok (server_reply r)) h = nothing_due s
nonce_message-Records w s a ack (ok server_nonce_ack) h = nothing_due s

nonces_turn-Records :
    (w : Wire) (s : ServerState) (ack : Bytes) (e : Event)
    → w.serialize server_nonce_ack ≡ ok ack
    → Records (announcement w e) (event_acks w ack e) s (nonces_turn w s e)
unfolding nonces_turn
nonces_turn-Records w s ack (received a buf) h =
    nonce_message-Records w s a ack (w.deserialize buf) h
nonces_turn-Records w s ack (failed e) h = tt
nonces_turn-Records w s ack timed_out h = tt
nonces_turn-Records w s ack (recorded addr nonce) h =
    ((λ b. get-insert b addr nonce s.pending), sym (append-nil s.sent))

waiting-injective : (s t : ServerState) → waiting s ≡ waiting t → s ≡ t
waiting-injective s t h = cc

recorded_all :
    (w : Wire) (ack : Bytes) (es : List Event) (s t : ServerState)
    → w.serialize server_nonce_ack ≡ ok ack
    → process_nonces_connection w s es ≡ waiting t
    → ((a : ℕ) → get a t.pending ≡ last_announced w a es (get a s.pending))
      × (t.sent ≡ s.sent ++ acks w ack es)
unfolding process_nonces_connection
recorded_all w ack [] s t h k =
    let e = waiting-injective s t k in
    (
      (λ a. ap (λ (x : ServerState). get a x.pending) (sym e)),
      ap (λ (x : ServerState). x.sent) (sym e) ∙ sym (append-nil s.sent),
    )
recorded_all w ack (e ∷ es) s t h k =
    of_turn (nonces_turn w s e) (nonces_turn-Records w s ack e h) k
      (λ m. recorded_all w ack es m t h)
  where
    of_turn :
        (turn : Turn)
        → Records (announcement w e) (event_acks w ack e) s turn
        → elim turn [
          | continues m ↦ process_nonces_connection w m es
          | nonces m ↦ process_nonces_connection w m es
          | finished m r ↦ ended m (ok none)
          | panicked ↦ aborted
        ]
          ≡ waiting t
        → ((m : ServerState)
            → process_nonces_connection w m es ≡ waiting t
            → ((a : ℕ) → get a t.pending ≡ last_announced w a es (get a m.pending))
              × (t.sent ≡ m.sent ++ acks w ack es))
        → ((a : ℕ) → get a t.pending ≡ last_announced w a (e ∷ es) (get a s.pending))
          × (t.sent ≡ s.sent ++ acks w ack (e ∷ es))
    of_turn (nonces m) (reads, sent) r rest =
        let (later, sent') = rest m r in
        (
          (λ a. later a ∙ ap (last_announced w a es) (reads a)),
          sent'
              ∙ ap (λ x. x ++ acks w ack es) sent
              ∙ append_assoc s.sent (event_acks w ack e) (acks w ack es),
        )
    of_turn (continues m) k r rest = absurd k
    of_turn (finished m x) k r rest = absurd (cc)
    of_turn panicked k r rest = absurd (cc)

-- While a connection that carries nonces stays open, the map has for an address the nonce that was
-- last announced for it, by a `ServerNonce` or by another connection, and each `ServerNonce` has been
-- acknowledged to its sender, in order, and nothing else was sent.
pub nonces_recorded :
    (w : Wire) (ack : Bytes) (es : List Event) (s t : ServerState) (a : ℕ)
    → w.serialize server_nonce_ack ≡ ok ack
    → process_nonces_connection w s es ≡ waiting t
    → (get a t.pending ≡ last_announced w a es (get a s.pending))
      × (t.sent ≡ s.sent ++ acks w ack es)
nonces_recorded w ack es s t a h k =
    let (reads, sent) = recorded_all w ack es s t h k in (reads a, sent)

pending_turn :
    (w : Wire) (stack : Stack) (buf : Bytes) (t : ServerState) (a : ℕ) (nonce : StackNonce)
    (ar : ApplyResult)
    → get a t.pending ≡ some nonce
    → apply stack nonce ≡ ok ar
    → w.connect_wrap ar.applied ≡ ok tt
    → w.inject a buf ≡ ok tt
    → server_turn w stack t (received a buf) ≡ finished t (ok (some (applied ar.applied a buf)))
unfolding server_turn
pending_turn w stack buf t a nonce ar at_a applies wraps injects =
    rw at_a (rw applies (rw wraps (rw injects refl)))

finished_run :
    (w : Wire) (stack : Stack) (e : Event) (rest : List Event) (s t : ServerState)
    (r : Result (Option Connection))
    → server_turn w stack s e ≡ finished t r
    → negotiate_server_connection w stack s (e ∷ rest) ≡ ended t r
unfolding negotiate_server_connection
finished_run w stack e rest s t r h = rw (h, negotiate_server_connection) refl

-- After a connection has carried nonces, a connection from an address that was announced is not
-- negotiated: its stack is the server's stack applied to the nonce last announced, and the message
-- that opened it is handed on to it.
pub announced_connects :
    (w : Wire) (stack : Stack) (ack buf : Bytes) (es rest : List Event) (s t : ServerState) (a : ℕ)
    (nonce : StackNonce) (ar : ApplyResult)
    → w.serialize server_nonce_ack ≡ ok ack
    → process_nonces_connection w s es ≡ waiting t
    → last_announced w a es (get a s.pending) ≡ some nonce
    → apply stack nonce ≡ ok ar
    → w.connect_wrap ar.applied ≡ ok tt
    → w.inject a buf ≡ ok tt
    → negotiate_server_connection w stack t (received a buf ∷ rest)
      ≡ ended t (ok (some (applied ar.applied a buf)))
announced_connects w stack ack buf es rest s t a nonce ar h run last applies wraps injects =
    let (reads, _) = nonces_recorded w ack es s t a h run in
    finished_run w stack (received a buf) rest t t (ok (some (applied ar.applied a buf)))
      (pending_turn w stack buf t a nonce ar (reads ∙ last) applies wraps injects)
