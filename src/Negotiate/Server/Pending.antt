-- ===== src/Negotiate/Server/Pending.antt =====
-- How the map of pending connections changes while the server answers messages.
use tbm.Prelude.{
  ℕ, ◌==◌, ◌≡◌, refl, sym, ap, ◌∙◌, List, [], ◌∷◌, ◌++◌, Memᴰ, Option, none, some, if◌then◌else◌,
  get, get-insert, Bytes, Result, ok, Bool-cases, ==_iff, inl, inr, ◌⊎◌,
}
use tbm.Negotiate.Types.{StackNonce, Stack}
use tbm.Negotiate.Server.{
  Wire, ServerState, Event, received, Connection, Turn, continues, nonces, finished, panicked, Run,
  waiting, ended, aborted, server_turn, nonces_turn, process_nonces_connection,
  negotiate_server_connection,
}
use tbm.Negotiate.Server.Writes.{
  announcement, Leaves, Writes, server_turn-Writes, nonces_turn-Writes,
}

-- The state that a run has come to.
abbrev pub Reaches : Run → ServerState → Type 0
Reaches (waiting s) t = s ≡ t
Reaches (ended s r) t = s ≡ t
Reaches aborted t = ⊥

-- The entry of an address is as it was, or one of the events announced it.
abbrev pub Accounted : Wire → List Event → ℕ → ServerState → ServerState → Type 0
Accounted w es a s t =
    (get a t.pending ≡ get a s.pending)
    ⊎ ((e : Event) × (nonce : StackNonce) × Memᴰ e es
        × (announcement w e ≡ some (a, nonce))
        × (get a t.pending ≡ some nonce))

first-Accounted :
    (w : Wire) (e : Event) (es : List Event) (a : ℕ) (s m : ServerState)
    → Writes (announcement w e) s m
    → Accounted w (e ∷ es) a s m
first-Accounted w e es a s m (inl same) = inl (ap (get a) same)
first-Accounted w e es a s m (inr (b, nonce, news, wrote)) = elim (Bool-cases (b == a)) [
  | inl k ↦ inr (
    e,
    nonce,
    Memᴰ.head refl,
    news ∙ ap (λ x. some (x, nonce)) ((==_iff b a).0 k),
    ap (get a) wrote ∙ get-insert a b nonce s.pending ∙ rw k refl,
  )
  | inr k ↦ inl (ap (get a) wrote ∙ get-insert a b nonce s.pending ∙ rw k refl)
]

then-Accounted :
    (w : Wire) (e : Event) (es : List Event) (a : ℕ) (s m t : ServerState)
    → Accounted w (e ∷ es) a s m
    → Accounted w es a m t
    → Accounted w (e ∷ es) a s t
then-Accounted w e es a s m t first (inr (f, nonce, i, news, at)) =
    inr (f, nonce, Memᴰ.tail i, news, at)
then-Accounted w e es a s m t (inl x) (inl y) = inl (y ∙ x)
then-Accounted w e es a s m t (inr (f, nonce, i, news, at)) (inl y) =
    inr (f, nonce, i, news, y ∙ at)

-- A run that starts with a round `turn`, and goes on by `on_continues` or `on_nonces`.
turn-Accounted :
    (w : Wire) (e : Event) (es : List Event) (a : ℕ) (s t : ServerState)
    (on_continues on_nonces : ServerState → Run)
    (result : Result (Option Connection) → Result (Option Connection))
    → ((m : ServerState) → Reaches (on_continues m) t → Accounted w es a m t)
    → ((m : ServerState) → Reaches (on_nonces m) t → Accounted w es a m t)
    → (turn : Turn) → Leaves (Writes (announcement w e) s) turn
    → Reaches
        (elim turn [
          | continues m ↦ on_continues m
          | nonces m ↦ on_nonces m
          | finished m r ↦ ended m (result r)
          | panicked ↦ aborted
        ])
        t
    → Accounted w (e ∷ es) a s t
turn-Accounted w e es a s t c n f after_c after_n (continues m) k r =
    then-Accounted w e es a s m t (first-Accounted w e es a s m k) (after_c m r)
turn-Accounted w e es a s t c n f after_c after_n (nonces m) k r =
    then-Accounted w e es a s m t (first-Accounted w e es a s m k) (after_n m r)
turn-Accounted w e es a s t c n f after_c after_n (finished m r') k r =
    then-Accounted w e es a s m t (first-Accounted w e es a s m k)
      (inl (ap (λ (x : ServerState). get a x.pending) (sym r)))
turn-Accounted w e es a s t c n f after_c after_n panicked k r = absurd r

nonces-Accounted :
    (w : Wire) (es : List Event) (a : ℕ) (s t : ServerState)
    → Reaches (process_nonces_connection w s es) t
    → Accounted w es a s t
unfolding process_nonces_connection
nonces-Accounted w [] a s t h = inl (ap (λ (x : ServerState). get a x.pending) (sym h))
nonces-Accounted w (e ∷ es) a s t h =
    turn-Accounted w e es a s t (λ m. process_nonces_connection w m es)
      (λ m. process_nonces_connection w m es) (λ _. ok none) (λ m. nonces-Accounted w es a m t)
      (λ m. nonces-Accounted w es a m t) (nonces_turn w s e) (nonces_turn-Writes w s e) h

-- However a connection's loops run, and whatever they receive, the nonce of an address in the map
-- of pending connections is as it was at the start, or it is a nonce that a `ServerNonce` for that
-- address (or another connection) announced on the way.
pub pending-Accounted :
    (w : Wire) (stack : Stack) (es : List Event) (a : ℕ) (s t : ServerState)
    → Reaches (negotiate_server_connection w stack s es) t
    → Accounted w es a s t
unfolding negotiate_server_connection
pending-Accounted w stack [] a s t h = inl (ap (λ (x : ServerState). get a x.pending) (sym h))
pending-Accounted w stack (e ∷ es) a s t h =
    turn-Accounted w e es a s t (λ m. negotiate_server_connection w stack m es)
      (λ m. process_nonces_connection w m es) (λ r. r) (λ m. pending-Accounted w stack es a m t)
      (λ m. nonces-Accounted w es a m t) (server_turn w stack s e) (server_turn-Writes w stack s e)
      h

-- The nonce that the last announcement for an address gives it.
abbrev pub superseded : ℕ → Option (ℕ × StackNonce) → Option StackNonce → Option StackNonce
superseded a none old = old
superseded a (some (b, nonce)) old = if b == a then some nonce else old

abbrev pub last_announced : Wire → ℕ → List Event → Option StackNonce → Option StackNonce
last_announced w a [] old = old
last_announced w a (e ∷ es) old = last_announced w a es (superseded a (announcement w e) old)

-- The acknowledgements that are due: one to the sender of each `ServerNonce`.
abbrev pub acked : ℕ → Bytes → Option (ℕ × StackNonce) → List (ℕ × Bytes)
acked a ack none = []
acked a ack (some news) = (a, ack) ∷ []

abbrev pub event_acks : Wire → Bytes → Event → List (ℕ × Bytes)
event_acks w ack (received a buf) = acked a ack (announcement w (received a buf))
event_acks w ack _ = []

abbrev pub acks : Wire → Bytes → List Event → List (ℕ × Bytes)
acks w ack [] = []
acks w ack (e ∷ es) = event_acks w ack e ++ acks w ack es
