-- ===== src/Negotiate/Server/Negotiated.antt =====
-- A connection that the server returns from a handshake.
use tbm.Prelude.{
  ℕ, ltb, ◌≡◌, refl, ap, true, List, [], ◌∷◌, ◌++◌, Option, none, some, length, Bytes, Result, ok,
  err, Outcome, returns, panics, Bool-cases, inl, inr, ◌⊎◌,
}
use tbm.Negotiate.Types.{StackNonce, Stack, Picked}
use tbm.Negotiate.Offers.{offers}
use tbm.Negotiate.Monomorphize.{
  NegotiateMsg, Monomorphized, monomorphize, client_offer, server_reply, client_nonce,
  server_nonce_ack,
}
use tbm.Negotiate.Server.{
  Wire, ServerState, picked, Turn, finished, add_sent, add_informed, wrapped_picked, after_send,
  respond, inform_picked, question, unwrap, answer_offer, answer_nonce,
}

-- The message that the server answered with `reply`, and the client's stacks in it.
abbrev pub Asks : Monomorphized → Result NegotiateMsg → List StackNonce → NegotiateMsg → Type 0
Asks m msg client reply =
    ((msg ≡ ok (client_offer client)) × (reply ≡ server_reply (ok m.picked_offers)))
    ⊎ ((o : StackNonce) × (msg ≡ ok (client_nonce o))
        × (client ≡ o ∷ [])
        × (reply ≡ server_nonce_ack))

-- A handshake behind the stack `p` of a connection, and the state `t` that it leaves.
pub record Negotiation (w : Wire) (stack : Stack) (a : ℕ) (msg : Result NegotiateMsg)
    (t : ServerState) (p : Picked) : Type 0 where
  pub client : List StackNonce
  pub m : Monomorphized
  pub reply : NegotiateMsg
  pub nonce_buf : Bytes
  pub reply_buf : Bytes
  pub before : List (ℕ × Bytes)
  pub informed : List Bytes
  pub asks : Asks m msg client reply
  pub made : monomorphize stack client (w.serialize_addr a) ≡ returns (ok m)
  pub same : p ≡ m.new_stack
  pub nonce_serialized : w.serialize m.nonce ≡ ok nonce_buf
  pub reply_serialized : w.serialize reply ≡ ok reply_buf
  pub fits : ltb (length reply_buf) 1500 ≡ true
  pub sent : t.sent ≡ before ++ (a, reply_buf) ∷ []
  pub told : t.informed ≡ informed ++ nonce_buf ∷ []

-- A round that returns the connection of a picked stack.
abbrev pub Picks : ServerState → Picked → Turn → Type 0
Picks t p turn = turn ≡ finished t (ok (some (picked p)))

wrapped_picked-inv :
    (w : Wire) (s t : ServerState) (q p : Picked) (r : Result {0} Unit)
    → Picks t p (wrapped_picked w s q r)
    → (q ≡ p) × (t ≡ s)
wrapped_picked-inv w s t q p (ok _) h = (cc, cc)
wrapped_picked-inv w s t q p (err e) h = absurd (cc)

after_send-inv :
    (w : Wire) (s t : ServerState) (a : ℕ) (buf : Bytes) (new : Option Picked) (p : Picked)
    (r : Result {0} Unit)
    → Picks t p (after_send w s a buf new r)
    → (new ≡ some p) × (t ≡ add_sent a buf s)
after_send-inv w s t a buf none p (ok _) h = absurd (cc)
after_send-inv w s t a buf (some q) p (ok _) h =
    let (e, f) = wrapped_picked-inv w (add_sent a buf s) t q p (w.connect_wrap q) h in
    (ap some e, f)
after_send-inv w s t a buf new p (err e) h = absurd (cc)

respond-inv :
    (w : Wire) (s t : ServerState) (a : ℕ) (new : Option Picked) (p : Picked) (out : Outcome Bytes)
    → Picks t p (respond w s a new out)
    → (buf : Bytes) × (out ≡ returns (ok buf))
      × (ltb (length buf) 1500 ≡ true)
      × (new ≡ some p)
      × (t ≡ add_sent a buf s)
respond-inv w s t a new p panics h = absurd (cc)
respond-inv w s t a new p (returns (err e)) h = absurd (cc)
respond-inv w s t a new p (returns (ok buf)) h = elim (Bool-cases (ltb (length buf) 1500)) [
  | inl e ↦
      let (same, state) = after_send-inv w s t a buf new p (w.send a buf) (rw e at h) in
      (buf, refl, e, same, state)
  | inr e ↦ absurd (cc (rw e at h))
]

serialized : (r : Result Bytes) (buf : Bytes) → unwrap r ≡ returns (ok buf) → r ≡ ok buf
serialized (ok b) buf h = cc
serialized (err e) buf h = absurd (cc)

-- The handshake, from the answer to its client.
inform_picked-inv :
    (w : Wire) (stack : Stack) (s t : ServerState) (a : ℕ) (msg : Result NegotiateMsg)
    (client : List StackNonce) (m : Monomorphized) (p : Picked) (reply : NegotiateMsg)
    (unwraps : Result Bytes → Outcome Bytes) (nonce : Result Bytes)
    → ((r : Result Bytes) (buf : Bytes) → unwraps r ≡ returns (ok buf) → r ≡ ok buf)
    → Asks m msg client reply
    → monomorphize stack client (w.serialize_addr a) ≡ returns (ok m)
    → w.serialize m.nonce ≡ nonce
    → Picks t p (inform_picked w s a m.new_stack unwraps reply nonce)
    → Negotiation w stack a msg t p
inform_picked-inv w stack s t a msg client m p reply unwraps (err e) un asks made n h = absurd (cc)
inform_picked-inv w stack s t a msg client m p reply unwraps (ok nonce_buf) un asks made n h =
    let (buf, out, fits, same, state) =
      respond-inv w (add_informed nonce_buf s) t a (some m.new_stack) p
        (unwraps (w.serialize reply)) h in
    record {
      client = client;
      m = m;
      reply = reply;
      nonce_buf = nonce_buf;
      reply_buf = buf;
      before = s.sent;
      informed = s.informed;
      asks = asks;
      made = made;
      same = cc (same);
      nonce_serialized = n;
      reply_serialized = un (w.serialize reply) buf out;
      fits = fits;
      sent = ap (λ (x : ServerState). x.sent) state;
      told = ap (λ (x : ServerState). x.informed) state;
    }

refused :
    (w : Wire) (s t : ServerState) (a : ℕ) (p : Picked) (out : Outcome Bytes)
    → Picks t p (respond w s a none out)
    → ⊥
refused w s t a p out h = let (_, _, _, e, _) = respond-inv w s t a none p out h in cc (e)

pub answer_offer-inv :
    (w : Wire) (stack : Stack) (s t : ServerState) (a : ℕ) (client : List StackNonce) (p : Picked)
    (out : Outcome Monomorphized)
    → monomorphize stack client (w.serialize_addr a) ≡ out
    → Picks t p (answer_offer w s a out)
    → Negotiation w stack a (ok (client_offer client)) t p
answer_offer-inv w stack s t a client p panics made h = absurd (cc)
answer_offer-inv w stack s t a client p (returns (err e)) made h =
    absurd (refused w s t a p (question (w.serialize (server_reply (err e)))) h)
answer_offer-inv w stack s t a client p (returns (ok m)) made h =
    inform_picked-inv w stack s t a (ok (client_offer client)) client m p
      (server_reply (ok m.picked_offers)) question (w.serialize m.nonce) (λ r b e. cc)
      (inl (refl, refl)) made refl h

pub answer_nonce-inv :
    (w : Wire) (stack : Stack) (s t : ServerState) (a : ℕ) (o : StackNonce) (p : Picked)
    (out : Outcome Monomorphized)
    → monomorphize stack (o ∷ []) (w.serialize_addr a) ≡ out
    → Picks t p (answer_nonce w stack s a out)
    → Negotiation w stack a (ok (client_nonce o)) t p
answer_nonce-inv w stack s t a o p panics made h = absurd (cc)
answer_nonce-inv w stack s t a o p (returns (err e)) made h =
    absurd (refused w s t a p (unwrap (w.serialize (server_reply (ok (offers stack))))) h)
answer_nonce-inv w stack s t a o p (returns (ok m)) made h =
    inform_picked-inv w stack s t a (ok (client_nonce o)) (o ∷ []) m p server_nonce_ack unwrap
      (w.serialize m.nonce) serialized (inr (o, refl, refl, refl)) made refl h
