-- ===== src/Ordered/EndToEnd.antt =====
-- A sender and a receiver, with a network between them that may drop, repeat and reorder segments.
use tbm.Prelude.{
  ℕ, ◌+◌, ◌<◌, ◌≤◌, ◌==◌, ◌≡◌, refl, sym, ap, ◌∙◌, List, [], ◌∷◌, ◌++◌, none, some, if◌then◌else◌,
  get, Result, ok, err, length, length-append, arith, Memᴰ, All, All-mem, Bool-cases, ==_self, inl,
  inr, subst,
}
use mathlib.Core.List.{append-nil, append_assoc}
use tbm.Ordered.{Segment, States, or_default, tag, send, recv, states_of, handed, receive}
use tbm.Ordered.Delivery.{at_written, IsGenuine, InOrder, IsShort, from, expected, get_elem?, take}
use tbm.Ordered.Receive.{GenuineBatch, recv-InOrder}

module _ {D : Type 0} where
  get_elem?-length :
      (xs : List D) (x : D) (ys : List D) → get_elem? (xs ++ x ∷ ys) (length xs) ≡ some x
  get_elem?-length [] x ys = refl
  get_elem?-length (y ∷ xs) x ys = get_elem?-length xs x ys

  -- The number that the sender gives to the next segment for an address.
  abbrev pub next_seq : ℕ → States D → ℕ
  next_seq a m = (or_default (get a m)).snd_nxt

  -- What was sent before, with one more segment.
  abbrev sent_after : ℕ → D → (ℕ → List D) → ℕ → List D
  sent_after b x sent a = if b == a then sent a ++ x ∷ [] else sent a

  sent_after-from :
      (b a : ℕ) (x : D) (sent : ℕ → List D) (burst : List (ℕ × D))
      → sent a ++ from a ((b, x) ∷ burst) ≡ sent_after b x sent a ++ from a burst
  sent_after-from b a x sent burst = elim (Bool-cases (b == a)) [
    | inl e ↦ rw e (sym (append_assoc (sent a) (x ∷ []) (from a burst)))
    | inr e ↦ rw e
  ]

  next_seq-tag :
      (b : ℕ) (x : D) (m : States D) (sent : ℕ → List D)
      → ((a : ℕ) → next_seq a m ≡ length (sent a))
      → next_seq b m + 1 < 4294967296
      → (a : ℕ) → next_seq a (tag m b x).0 ≡ length (sent_after b x sent a)
  unfolding tag
  next_seq-tag b x m sent h short =
      at_written (λ a s. s.snd_nxt ≡ length (sent_after b x sent a)) b _ m
        (rw (==_self b) (omega (arith, h b, length-append (sent b) (x ∷ [])))) (λ a e. rw e (h a))

  -- Whatever has been sent before, a burst is numbered by its place in each stream.
  send-All :
      (stream sent : ℕ → List D) (m : States D) (burst : List (ℕ × D))
      → IsShort stream
      → ((a : ℕ) → stream a ≡ sent a ++ from a burst)
      → ((a : ℕ) → next_seq a m ≡ length (sent a))
      → All (IsGenuine stream) (send m burst).1
  unfolding send
  send-All stream sent m [] short parts next = tt
  send-All stream sent m ((b, x) ∷ burst) short parts next =
      let here : stream b ≡ sent b ++ x ∷ from b burst = parts b ∙ rw (==_self b) in
      (
        genuine here,
        send-All stream (sent_after b x sent) (tag m b x).0 burst short
            (λ a. parts a ∙ sent_after-from b a x sent burst)
            (next_seq-tag b x m sent next (
              omega (
                arith,
                short b,
                ap length here,
                length-append (sent b) (x ∷ from b burst),
                next b,
              ))),
      )
    where
      genuine : stream b ≡ sent b ++ x ∷ from b burst → IsGenuine stream (tag m b x).1
      genuine here = rw (here, next b) (get_elem?-length (sent b) x (from b burst))

  receive-InOrder :
      (stream : ℕ → List D) (m : States D) (calls : List (ℕ × List (Result (List (Segment D)))))
      (out : List (ℕ × D))
      → IsShort stream
      → All (λ c. All (GenuineBatch stream) c.1) calls
      → InOrder stream m out
      → InOrder stream (receive none m calls).0 (out ++ (receive none m calls).1)
  unfolding receive
  receive-InOrder stream m [] out short g k = rw append-nil k
  receive-InOrder stream m ((slots, batches) ∷ calls) out short g k =
      let r = recv none slots m batches in
      let rest = receive none (states_of r) calls in
      subst (InOrder stream rest.0) (append_assoc out (handed r) rest.1) (
        receive-InOrder stream (states_of r) calls (out ++ handed r) short g.1
          (recv-InOrder stream short slots m batches out g.0 k))

  -- All that a batch brings is among the segments that were sent.
  abbrev pub IsCarried : List (Segment D) → Result (List (Segment D)) → Type 0
  IsCarried sent (ok msgs) = All (λ s. Memᴰ s sent) msgs
  IsCarried sent (err e) = Unit

  carried-Genuine :
      (stream : ℕ → List D) (sent : List (Segment D)) (batch : Result (List (Segment D)))
      → All (IsGenuine stream) sent
      → IsCarried sent batch
      → GenuineBatch stream batch
  carried-Genuine stream sent (ok []) g c = tt
  carried-Genuine stream sent (ok (s ∷ msgs)) g c =
      (All-mem (IsGenuine stream) s sent g c.0, carried-Genuine stream sent (ok msgs) g c.1)
  carried-Genuine stream sent (err e) g c = tt

  length-from-le : (a : ℕ) (xs : List (ℕ × D)) → length (from a xs) ≤ length xs
  length-from-le a [] = omega arith
  length-from-le a ((b, x) ∷ xs) = ground (arith, length-from-le a xs)

  start-InOrder : (stream : ℕ → List D) → InOrder stream [] []
  start-InOrder stream = record { unique = tt; waiting = λ a. tt; prefix = λ a. refl }

-- Without a threshold, delivery is in order and without repetition. A sender sends `burst`; the receiver
-- calls `recv` any number of times, with any number of slots, and its inner connection yields errors
-- and segments that were sent, each any number of times and in any order, or never. Then what the
-- receiver hands over from an address is a prefix of what was sent to it, as long as the
-- number that the receiver expects next. The burst has less than 2 ^ 32 segments.
pub receive-prefix :
    {D : Type 0} (burst : List (ℕ × D)) (calls : List (ℕ × List (Result (List (Segment D)))))
    (a : ℕ)
    → length burst < 4294967296
    → All (λ c. All (IsCarried (send [] burst).1) c.1) calls
    → from a (receive none [] calls).1 ≡ take (expected a (receive none [] calls).0) (from a burst)
receive-prefix {D} burst calls a small carried =
    (receive-InOrder stream [] calls [] short (all_calls calls carried)
        (start-InOrder stream)).prefix
      a
  where
    stream : ℕ → List D
    stream b = from b burst

    short : IsShort stream
    short b = omega (arith, length-from-le b burst)

    sent : All (IsGenuine stream) (send [] burst).1
    sent = send-All stream (λ b. []) [] burst short (λ b. refl) (λ b. refl)

    all_batches :
        (batches : List (Result (List (Segment D))))
        → All (IsCarried (send [] burst).1) batches
        → All (GenuineBatch stream) batches
    all_batches [] c = tt
    all_batches (b ∷ bs) c =
        (carried-Genuine stream (send [] burst).1 b sent c.0, all_batches bs c.1)

    all_calls :
        (cs : List (ℕ × List (Result (List (Segment D)))))
        → All (λ c. All (IsCarried (send [] burst).1) c.1) cs
        → All (λ c. All (GenuineBatch stream) c.1) cs
    all_calls [] c = tt
    all_calls (d ∷ ds) c = (all_batches d.1 c.0, all_calls ds c.1)
