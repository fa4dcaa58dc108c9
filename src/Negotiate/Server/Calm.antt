-- ===== src/Negotiate/Server/Calm.antt =====
-- When the server's loops panic.
use tbm.Prelude.{◌≡◌, refl, List, [], ◌∷◌, Memᴰ, Option, none, Result, ok}
use tbm.Negotiate.Types.{Stack}
use tbm.Negotiate.Server.{
  Wire, ServerState, Event, Connection, Turn, continues, nonces, finished, panicked, Run, ended,
  aborted, server_turn, nonces_turn, process_nonces_connection, negotiate_server_connection,
}
use tbm.Negotiate.Server.Blame.{BlamedOn, Calm, server_turn-Calm, nonces_turn-Calm}

-- The server's answer to one of the events is to blame.
abbrev pub Blamed : Wire → Stack → List Event → Type 0
Blamed w stack es = (e : Event) × Memᴰ e es × BlamedOn w stack e

later :
    (w : Wire) (stack : Stack) (e : Event) (es : List Event)
    → Blamed w stack es
    → Blamed w stack (e ∷ es)
later w stack e es (x, there, blame) = (x, Memᴰ.tail there, blame)

-- A run whose first round does not panic panics only later.
turn-Calm :
    (B : Type 0) (on_continues on_nonces : ServerState → Run)
    (result : Result (Option Connection) → Result (Option Connection)) (turn : Turn)
    → Calm B turn
    → ((m : ServerState) → on_continues m ≡ aborted → B)
    → ((m : ServerState) → on_nonces m ≡ aborted → B)
    → elim turn [
      | continues m ↦ on_continues m
      | nonces m ↦ on_nonces m
      | finished m r ↦ ended m (result r)
      | panicked ↦ aborted
    ]
      ≡ aborted
    → B
turn-Calm B c n f (continues m) k hc hn e = hc m e
turn-Calm B c n f (nonces m) k hc hn e = hn m e
turn-Calm B c n f (finished m r) k hc hn e = absurd (cc)
turn-Calm B c n f panicked k hc hn e = k

Calm-map : (A B : Type 0) (turn : Turn) → (A → B) → Calm A turn → Calm B turn
Calm-map A B (continues m) f k = tt
Calm-map A B (nonces m) f k = tt
Calm-map A B (finished m r) f k = tt
Calm-map A B panicked f k = f k

nonces-Blamed :
    (w : Wire) (stack : Stack) (es : List Event) (s : ServerState)
    → process_nonces_connection w s es ≡ aborted
    → Blamed w stack es
unfolding process_nonces_connection
nonces-Blamed w stack [] s h = absurd (cc)
nonces-Blamed w stack (e ∷ es) s h =
    turn-Calm (Blamed w stack (e ∷ es)) (λ m. process_nonces_connection w m es)
      (λ m. process_nonces_connection w m es) (λ _. ok none) (nonces_turn w s e)
      (Calm-map _ _ (nonces_turn w s e) (λ blame. (e, Memᴰ.head refl, blame))
        (nonces_turn-Calm w stack s e))
      (λ m k. later w stack e es (nonces-Blamed w stack es m k))
      (λ m k. later w stack e es (nonces-Blamed w stack es m k)) h

-- The server's loops panic only where the server's own answer to one of the messages that they receive
-- is to blame: the reply to an offer serialises to 1500 bytes or more; or the acknowledgement of a
-- nonce, or the reply with all offers to a client's nonce that does not fit, does so or does not
-- serialise. No other `unwrap`, assertion or `expect` fails, whatever a client sends.
pub panic-Blamed :
    (w : Wire) (stack : Stack) (es : List Event) (s : ServerState)
    → negotiate_server_connection w stack s es ≡ aborted
    → Blamed w stack es
unfolding negotiate_server_connection
panic-Blamed w stack [] s h = absurd (cc)
panic-Blamed w stack (e ∷ es) s h =
    turn-Calm (Blamed w stack (e ∷ es)) (λ m. negotiate_server_connection w stack m es)
      (λ m. process_nonces_connection w m es) (λ r. r) (server_turn w stack s e)
      (Calm-map _ _ (server_turn w stack s e) (λ blame. (e, Memᴰ.head refl, blame))
        (server_turn-Calm w stack s e))
      (λ m k. later w stack e es (panic-Blamed w stack es m k))
      (λ m k. later w stack e es (nonces-Blamed w stack es m k)) h
