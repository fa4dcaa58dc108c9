-- ===== src/KvReliability/Numbered.antt =====
-- The channels of a connection stay numbered.
use tbm.Prelude.{
  remove, ℕ, suc, ltb, ◌<◌, ◌≡◌, refl, true, List, [], ◌∷◌, ◌++◌, Option, none, some, get, insert,
  mem_of_get, all, all-mem, set_contains, Result, ok, err, eyre, Bool-cases, some-injective, subst,
  inl, inr, arith,
}
use tbm.KvReliability.{
  KvReliability, Event, responses, recv_failed, timed_out, polled, SendRun, waiting, returned,
  failed, aborted, Completion, incomplete, complete, sender_dropped, register, register_all, tokens,
  notify_sender, accept_response, accept_responses, completion, close, send_batch, send_loop, send,
}
use tbm.KvReliability.Answered.{IsNumbered}

all-suc :
    (n : ℕ) (m : List (ℕ × ℕ)) → all (λ e. ltb e.1 n) m ≡ true → all (λ e. ltb e.1 (suc n)) m ≡ true
all-suc n [] h = refl
all-suc n ((k, v) ∷ m) h = ground (arith, all-suc n m)

all-suc_tokens :
    (n : ℕ) (xs : List ℕ) → all (λ i. ltb i n) xs ≡ true → all (λ i. ltb i (suc n)) xs ≡ true
all-suc_tokens n [] h = refl
all-suc_tokens n (x ∷ xs) h = ground (arith, all-suc_tokens n xs)

all-insert :
    (k v n : ℕ) (m : List (ℕ × ℕ))
    → v < n
    → all (λ e. ltb e.1 n) m ≡ true
    → all (λ e. ltb e.1 n) (insert k v m) ≡ true
all-insert k v n [] l h = ground (arith)
all-insert k v n ((j, w) ∷ m) l h = ground (arith, all-insert k v n m l)

all-remove :
    (k n : ℕ) (m : List (ℕ × ℕ))
    → all (λ e. ltb e.1 n) m ≡ true
    → all (λ e. ltb e.1 n) (remove k m) ≡ true
all-remove k n [] h = refl
all-remove k n ((j, w) ∷ m) h = ground (arith, all-remove k n m)

-- The state that a run has come to, if it did not panic.
abbrev pub Reaches : {A D : Type 0} → SendRun A D → KvReliability A D → Type 0
Reaches (waiting s) t = s ≡ t
Reaches (returned s) t = s ≡ t
Reaches (failed e s) t = s ≡ t
Reaches aborted t = ⊥

module _ {A D : Type 0} (id : D → ℕ) where
  register_all-IsNumbered :
      (ps : List (A × D)) (s : KvReliability A D)
      → IsNumbered id s
      → IsNumbered id (register_all id ps s)
  unfolding register_all
  register_all-IsNumbered [] s h = h
  register_all-IsNumbered (p ∷ ps) s (a, b) = register_all-IsNumbered ps (register id p s) (
    all-insert (id p.1) s.next (suc s.next) s.sends (omega arith) (all-suc s.next s.sends a),
    all-suc_tokens s.next s.answered b,
  )

  accept_response-IsNumbered :
      (r : A × D) (s t : KvReliability A D)
      → IsNumbered id s
      → accept_response id r s ≡ some t
      → IsNumbered id t
  unfolding accept_response
  accept_response-IsNumbered (a, d) s t (sends, answered) h = of_sender (get (id d) s.sends) refl h
    where
      of_sender :
          (o : Option ℕ)
          → get (id d) s.sends ≡ o
          → notify_sender id (id d) o (record s { received = s.received ++ (a, d) ∷ [] }) ≡ some t
          → IsNumbered id t
      of_sender none e f = subst (IsNumbered id) (some-injective f) (sends, answered)
      of_sender (some token) e f = elim (Bool-cases (set_contains s.closed token)) [
        | inl c ↦ absurd (cc (rw c at f))
        | inr c ↦ subst (IsNumbered id) (some-injective (rw c at f)) (
          all-remove (id d) s.next s.sends sends,
          rw
              (
                all-mem (λ x. ltb x.1 s.next) (id d, token) s.sends sends
                    (mem_of_get (id d) token s.sends e),
                answered,
              )
              refl,
        )
      ]

  accept_responses-IsNumbered :
      (ms : List (A × D)) (s t : KvReliability A D)
      → IsNumbered id s
      → accept_responses id ms s ≡ some t
      → IsNumbered id t
  unfolding accept_responses
  accept_responses-IsNumbered [] s t k h = subst (IsNumbered id) (some-injective h) k
  accept_responses-IsNumbered (r ∷ ms) s t k h =
      of_first (accept_response id r s) (λ m. accept_response-IsNumbered r s m k) h
        (λ m g. accept_responses-IsNumbered ms m t g)
    where
      of_first :
          (o : Option (KvReliability A D))
          → ((m : KvReliability A D) → o ≡ some m → IsNumbered id m)
          → elim o [ none ↦ none | some m ↦ accept_responses id ms m ] ≡ some t
          → ((m : KvReliability A D)
              → IsNumbered id m
              → accept_responses id ms m ≡ some t
              → IsNumbered id t)
          → IsNumbered id t
      of_first none first f rest = absurd (cc)
      of_first (some m) first f rest = rest m (first m refl) f

  send_loop-IsNumbered :
      (batch : List (A × D)) (toks : List (ℕ × (A × D))) (es : List (Event A D))
      (s t : KvReliability A D)
      → IsNumbered id s
      → Reaches (send_loop id batch toks s es) t
      → IsNumbered id t
  unfolding send_loop
  send_loop-IsNumbered batch toks [] s t k h = subst (IsNumbered id) h k
  send_loop-IsNumbered batch toks (responses ms ∷ es) s t k h =
      of_accepted (accept_responses id ms s) (λ n. accept_responses-IsNumbered ms s n k) h
        (λ n g. send_loop-IsNumbered batch toks es n t g)
    where
      of_accepted :
          (o : Option (KvReliability A D))
          → ((n : KvReliability A D) → o ≡ some n → IsNumbered id n)
          → Reaches (elim o [ none ↦ aborted | some n ↦ send_loop id batch toks n es ]) t
          → ((n : KvReliability A D)
              → IsNumbered id n
              → Reaches (send_loop id batch toks n es) t
              → IsNumbered id t)
          → IsNumbered id t
      of_accepted none accepted f rest = absurd f
      of_accepted (some n) accepted f rest = rest n (accepted n refl) f
  send_loop-IsNumbered batch toks (recv_failed e ∷ es) s t k h = subst (IsNumbered id) h k
  send_loop-IsNumbered batch toks (timed_out (err e) ∷ es) s t k h = subst (IsNumbered id) h k
  send_loop-IsNumbered batch toks (timed_out (ok _) ∷ es) s t k h =
      send_loop-IsNumbered batch toks es (send_batch id batch s) t k h
  send_loop-IsNumbered batch toks (polled ∷ es) s t k h =
      of_completion (completion id toks s) h (send_loop-IsNumbered batch toks es s t k)
    where
      of_completion :
          (c : Completion)
          → Reaches
              (elim c [
                | incomplete ↦ send_loop id batch toks s es
                | complete ↦ returned (close id toks s)
                | sender_dropped ↦ failed (eyre "channel closed") (close id toks s)
              ])
              t
          → (Reaches (send_loop id batch toks s es) t → IsNumbered id t)
          → IsNumbered id t
      of_completion incomplete f rest = rest f
      of_completion complete f rest = subst (IsNumbered id) f k
      of_completion sender_dropped f rest = subst (IsNumbered id) f k

-- A `send` leaves the channels numbered, however it goes on or ends: it is ready for the next one.
pub send-IsNumbered :
    {A D : Type 0} (id : D → ℕ) (burst : List (A × D)) (first : Result {0} Unit)
    (s t : KvReliability A D) (es : List (Event A D))
    → IsNumbered id s
    → Reaches (send id burst first s es) t
    → IsNumbered id t
unfolding send
send-IsNumbered id burst (err e) s t es k h =
    subst (IsNumbered id) h (register_all-IsNumbered id burst s k)
send-IsNumbered id burst (ok _) s t es k h =
    send_loop-IsNumbered id burst (tokens id burst s.next) es
      (send_batch id burst (register_all id burst s)) t (register_all-IsNumbered id burst s k) h
