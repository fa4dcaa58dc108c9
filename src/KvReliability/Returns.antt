-- ===== src/KvReliability/Returns.antt =====
-- A `send` that returns has been answered.
use tbm.Prelude.{
  remove, ℕ, ◌==◌, ◌≡◌, refl, sym, ap, ◌∙◌, true, List, [], ◌∷◌, ◌++◌, Memᴰ, Option, none, some,
  get, all, all-mem, not, set_contains, Result, ok, err, eyre, Bool-cases, ==_iff, some-injective,
  inl, inr, subst, mem-append_left, mem-append_right,
}
use tbm.KvReliability.{
  KvReliability, Event, responses, recv_failed, timed_out, polled, returned, failed, aborted,
  Completion, incomplete, complete, sender_dropped, register_all, tokens, notify_sender,
  accept_response, accept_responses, completion, close, send_batch, send_loop, send,
}
use tbm.KvReliability.Answered.{kept, Heard, Tracks, tokens-mem, register_all-Tracks, IsNumbered}

-- The responses among the events.
abbrev pub arrivals : {A D : Type 0} → List (Event A D) → List (A × D)
arrivals [] = []
arrivals (responses ms ∷ es) = ms ++ arrivals es
arrivals (e ∷ es) = arrivals es

module _ {A D : Type 0} (id : D → ℕ) (toks : List (ℕ × (A × D))) (whole : List (A × D)) where
  notified-Tracks :
      (a : A) (d : D) (token : ℕ) (s : KvReliability A D)
      → Memᴰ (a, d) whole
      → get (id d) s.sends ≡ some token
      → Tracks id toks whole s
      → Tracks id toks whole
          (record s { sends = remove (id d) s.sends; answered = token ∷ s.answered })
  notified-Tracks a d token s there at_id k = record {
    own = λ j i p h m. k.own j i p (kept j (id d) s.sends i h) m;
    done = λ i p h m. elim (Bool-cases (token == i)) [
      | inl e ↦ ((a, d), there, sym (k.own (id d) i p (at_id ∙ ap some ((==_iff token i).0 e)) m))
      | inr e ↦ k.done i p (rw e at h) m
    ];
  }

  accept_response-Tracks :
      (r : A × D) (s t : KvReliability A D)
      → Memᴰ r whole
      → Tracks id toks whole s
      → accept_response id r s ≡ some t
      → Tracks id toks whole t
  unfolding accept_response
  accept_response-Tracks (a, d) s t there k h = of_sender (get (id d) s.sends) refl h
    where
      handed : KvReliability A D
      handed = record s { received = s.received ++ (a, d) ∷ [] }

      handed-Tracks : Tracks id toks whole (record s { received = s.received ++ (a, d) ∷ [] })
      handed-Tracks = record { own = k.own; done = k.done }

      of_sender :
          (o : Option ℕ)
          → get (id d) s.sends ≡ o
          → notify_sender id (id d) o (record s { received = s.received ++ (a, d) ∷ [] }) ≡ some t
          → Tracks id toks whole t
      of_sender none e f = subst (Tracks id toks whole) (some-injective f) handed-Tracks
      of_sender (some token) e f = elim (Bool-cases (set_contains s.closed token)) [
        | inl c ↦ absurd (cc (rw c at f))
        | inr c ↦ subst (Tracks id toks whole) (some-injective (rw c at f)) (
            notified-Tracks a d token (record s { received = s.received ++ (a, d) ∷ [] }) there e
              handed-Tracks)
      ]

  accept_responses-Tracks :
      (ms : List (A × D)) (s t : KvReliability A D)
      → ((r : A × D) → Memᴰ r ms → Memᴰ r whole)
      → Tracks id toks whole s
      → accept_responses id ms s ≡ some t
      → Tracks id toks whole t
  unfolding accept_responses
  accept_responses-Tracks [] s t within k h = subst (Tracks id toks whole) (some-injective h) k
  accept_responses-Tracks (r ∷ ms) s t within k h =
      of_first (accept_response id r s) (accept_response-Tracks r s) h
        (λ m g. accept_responses-Tracks ms m t (λ x i. within x (Memᴰ.tail i)) g)
    where
      of_first :
          (o : Option (KvReliability A D))
          → ((m : KvReliability A D)
              → Memᴰ r whole
              → Tracks id toks whole s
              → o ≡ some m
              → Tracks id toks whole m)
          → elim o [ none ↦ none | some m ↦ accept_responses id ms m ] ≡ some t
          → ((m : KvReliability A D)
              → Tracks id toks whole m
              → accept_responses id ms m ≡ some t
              → Tracks id toks whole t)
          → Tracks id toks whole t
      of_first none first f rest = absurd (cc)
      of_first (some m) first f rest = rest m (first m (within r (Memᴰ.head refl)) k refl) f

  complete-answered :
      (s : KvReliability A D) (i : ℕ) (p : A × D)
      → completion id toks s ≡ complete
      → Memᴰ (i, p) toks
      → set_contains s.answered i ≡ true
  complete-answered s i p h m =
      elim (Bool-cases (all (λ t. not (set_contains s.dropped t.0)) toks)) [
        | inr e ↦ absurd (cc (rw e at h))
        | inl e ↦ elim (Bool-cases (all (λ t. set_contains s.answered t.0) toks)) [
          | inl f ↦ all-mem (λ t. set_contains s.answered t.0) (i, p) toks f m
          | inr f ↦ absurd (cc (rw (e, f) at h))
        ]
      ]

  send_loop-Heard :
      (batch : List (A × D)) (es : List (Event A D)) (s t : KvReliability A D) (i : ℕ) (p : A × D)
      → ((r : A × D) → Memᴰ r (arrivals es) → Memᴰ r whole)
      → Tracks id toks whole s
      → Memᴰ (i, p) toks
      → send_loop id batch toks s es ≡ returned t
      → Heard id p whole
  unfolding send_loop
  send_loop-Heard batch [] s t i p within k m h = absurd (cc)
  send_loop-Heard batch (responses ms ∷ es) s t i p within k m h =
      of_accepted (accept_responses id ms s)
        (λ n.
          accept_responses-Tracks ms s n (λ r j. within r (mem-append_left r ms (arrivals es) j)) k)
        h
        (λ n g.
          send_loop-Heard batch es n t i p (λ r j. within r (mem-append_right r ms (arrivals es) j))
            g m)
    where
      of_accepted :
          (o : Option (KvReliability A D))
          → ((n : KvReliability A D) → o ≡ some n → Tracks id toks whole n)
          → elim o [ none ↦ aborted | some n ↦ send_loop id batch toks n es ] ≡ returned t
          → ((n : KvReliability A D)
              → Tracks id toks whole n
              → send_loop id batch toks n es ≡ returned t
              → Heard id p whole)
          → Heard id p whole
      of_accepted none accepted f rest = absurd (cc)
      of_accepted (some n) accepted f rest = rest n (accepted n refl) f
  send_loop-Heard batch (recv_failed e ∷ es) s t i p within k m h = absurd (cc)
  send_loop-Heard batch (timed_out (err e) ∷ es) s t i p within k m h = absurd (cc)
  send_loop-Heard batch (timed_out (ok _) ∷ es) s t i p within k m h =
      send_loop-Heard batch es (send_batch id batch s) t i p within
        (record { own = k.own; done = k.done }) m h
  send_loop-Heard batch (polled ∷ es) s t i p within k m h =
      of_completion (completion id toks s) (λ c. complete-answered s i p c m) h
        (send_loop-Heard batch es s t i p within k m)
    where
      of_completion :
          (c : Completion)
          → (c ≡ complete → set_contains s.answered i ≡ true)
          → elim c [
            | incomplete ↦ send_loop id batch toks s es
            | complete ↦ returned (close id toks s)
            | sender_dropped ↦ failed (eyre "channel closed") (close id toks s)
          ]
            ≡ returned t
          → (send_loop id batch toks s es ≡ returned t → Heard id p whole)
          → Heard id p whole
      of_completion incomplete answered f rest = rest f
      of_completion complete answered f rest = k.done i p (answered refl) m
      of_completion sender_dropped answered f rest = absurd (cc)

-- Where `send` returns without an error, a response has come, during the call, for each packet of the
-- burst: one with the packet's id. This holds for any state of the connection that numbers its
-- channels, whatever other calls left in its map.
pub send-Heard :
    {A D : Type 0} (id : D → ℕ) (burst : List (A × D)) (first : Result {0} Unit)
    (s t : KvReliability A D) (es : List (Event A D)) (p : A × D)
    → IsNumbered id s
    → send id burst first s es ≡ returned t
    → Memᴰ p burst
    → Heard id p (arrivals es)
unfolding send
send-Heard id burst (err e) s t es p n h m = absurd (cc)
send-Heard id burst (ok _) s t es p n h m =
    let k = register_all-Tracks id burst s (arrivals es) n in
    let (i, there) = tokens-mem id burst s.next p m in
    send_loop-Heard id (tokens id burst s.next) (arrivals es) burst es
      (send_batch id burst (register_all id burst s)) t i p (λ r j. j)
      (record { own = k.own; done = k.done }) there h
