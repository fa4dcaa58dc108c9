-- ===== src/Ordered/RoundTrip.antt =====
-- Delivery of what arrives as it was sent, and the fault of `recv` on a segment that arrives twice.
use tbm.Prelude.{
  ℕ, suc, ◌+◌, ◌<◌, ◌==◌, ltb, leb, ◌≡◌, refl, sym, ap, ◌∙◌, false, List, [], ◌∷◌, Option, none,
  some, get, insert, get-insert, ltb→lt, Result, ok, arith, All, Bool-cases, ==_iff, ==_self, inl,
  inr, cons_some,
}
use tbm.Ordered.{
  OrderedState, Segment, States, or_default, push, tag, send, accept, fill, pop_head, pop_ready,
  first_ready, peel, if_any, recv_loop, recv, u32, handed,
}
use tbm.Ordered.Delivery.{at_written}

module _ {D : Type 0} where
  -- The receiver expects from each address what the sender gives next to it.
  abbrev InStep : States D → States D → Type 0
  InStep sender receiver =
      (a : ℕ) → (or_default (get a sender)).snd_nxt ≡ (or_default (get a receiver)).expected_recv

  accept_expected :
      (st : OrderedState D) (a : ℕ) (x : D)
      → accept st a st.expected_recv x
        ≡ (record st { expected_recv = u32 (st.expected_recv + 1) }, some (a, x))
  unfolding accept
  accept_expected st a x = rw (==_self st.expected_recv)

  -- The receiver's state after the segment that it expects.
  abbrev moved : ℕ → States D → OrderedState D
  moved b r =
      let st = or_default (get b r) in record st { expected_recv = u32 (st.expected_recv + 1) }

  accepted-InStep :
      (b : ℕ) (x : D) (s r : States D) → InStep s r → InStep (tag s b x).0 (insert b (moved b r) r)
  unfolding tag
  accepted-InStep b x s r h =
      at_written (λ c t. t.snd_nxt ≡ (or_default (get c (insert b (moved b r) r))).expected_recv) b
        _ s (ap (λ n. u32 (n + 1)) (h b) ∙ sym (ap (λ o. (or_default o).expected_recv) at_key))
        (λ c e. h c ∙ sym (ap (λ o. (or_default o).expected_recv) (off_key c e)))
    where
      at_key : get b (insert b (moved b r) r) ≡ some (moved b r)
      at_key = get-insert b b (moved b r) r ∙ rw (==_self b)

      off_key : (c : ℕ) → (b == c) ≡ false → get c (insert b (moved b r) r) ≡ get c r
      off_key c e = get-insert c b (moved b r) r ∙ rw e

  fill-send-InStep :
      (burst : List (ℕ × D)) (s r : States D) → InStep s r → (fill r (send s burst).1).1 ≡ burst
  unfolding fill send
  fill-send-InStep [] s r h = refl
  fill-send-InStep ((b, x) ∷ burst) s r h =
      let st = or_default (get b r) in
      let rest = (send (tag s b x).0 burst).1 in
      number rest
      ∙ ap (λ (p : OrderedState D × Option (ℕ × D)). cons_some p.1 (fill (insert b p.0 r) rest).1)
          (accept_expected st b x)
      ∙ ap (◌∷◌ (b, x)) (
          fill-send-InStep burst (tag s b x).0 (insert b (moved b r) r) (accepted-InStep b x s r h))
    where
      first : ℕ → OrderedState D × Option (ℕ × D)
      first n = accept (or_default (get b r)) b n x

      number :
          (rest : List (Segment D))
          → cons_some
              (first (or_default (get b s)).snd_nxt).1
              (fill (insert b (first (or_default (get b s)).snd_nxt).0 r) rest).1
            ≡ cons_some
                (first (or_default (get b r)).expected_recv).1
                (fill (insert b (first (or_default (get b r)).expected_recv).0 r) rest).1
      number rest = ap (λ n. cons_some (first n).1 (fill (insert b (first n).0 r) rest).1) (h b)

  -- What arrives in the order of its sending is handed over as it was sent: a first `recv` whose
  -- inner connection yields just the segments of a burst, to any addresses, returns the burst.
  pub recv-send :
      (thresh : Option ℕ) (slots : ℕ) (o : ℕ × D) (burst : List (ℕ × D))
      (batches : List (Result (List (Segment D))))
      → handed (recv thresh (suc slots) [] (ok (send [] (o ∷ burst)).1 ∷ batches)) ≡ o ∷ burst
  unfolding recv recv_loop peel first_ready
  recv-send thresh slots o burst batches =
      ap
        (λ out. handed (
          if_any (fill [] (send [] (o ∷ burst)).1).0 out
            (recv_loop thresh (suc slots) (fill [] (send [] (o ∷ burst)).1).0 batches)))
        (fill-send-InStep (o ∷ burst) [] [] (λ a. refl))

  -- Arrivals from one address, one after another.
  abbrev pub arrive : OrderedState D → ℕ → List (ℕ × D) → OrderedState D
  arrive st a [] = st
  arrive st a ((seq, x) ∷ xs) = arrive (accept st a seq x).0 a xs

  -- The first waiting segment has been overtaken.
  abbrev IsStale : OrderedState D → Type 0
  IsStale st =
      (e : ℕ × (ℕ × D)) × (rest : List (ℕ × (ℕ × D))) × (st.recvd ≡ e ∷ rest)
      × (e.0 < st.expected_recv)

  push_later :
      (e x : ℕ × (ℕ × D)) (heap rest : List (ℕ × (ℕ × D)))
      → heap ≡ x ∷ rest
      → x.0 < e.0
      → push e heap ≡ x ∷ push e rest
  unfolding push
  push_later e x heap rest h lt = ap (push e) h ∙ rw (not_le)
    where
      not_le : leb e.0 x.0 ≡ false
      not_le = ground arith

  accept-IsStale :
      (st : OrderedState D) (a seq : ℕ) (x : D)
      → seq + 1 < 4294967296
      → IsStale st
      → IsStale (accept st a seq x).0
  unfolding accept
  accept-IsStale st a seq x short (e, rest, heap, lt) =
      elim (Bool-cases (seq == st.expected_recv)) [
        | inl f ↦ rw f (e, rest, heap, let same = (==_iff seq st.expected_recv).0 f in omega arith)
        | inr f ↦ elim (Bool-cases (ltb st.expected_recv seq)) [
          | inl g ↦
              rw (f, g)
                (
                  e,
                  push (seq, (a, x)) rest,
                  push_later (seq, (a, x)) e st.recvd rest heap
                      (omega (arith, ltb→lt st.expected_recv seq g)),
                  lt,
                )
          | inr g ↦ rw (f, g) (e, rest, heap, lt)
        ]
      ]

  IsStale-pop : (st : OrderedState D) → IsStale st → pop_ready none st ≡ none
  unfolding pop_ready
  IsStale-pop st (e, rest, heap, lt) = ap (pop_head none st) heap ∙ ground arith

  arrive-IsStale :
      (st : OrderedState D) (a : ℕ) (arrivals : List (ℕ × D))
      → All (λ s. s.0 + 1 < 4294967296) arrivals
      → IsStale st
      → IsStale (arrive st a arrivals)
  arrive-IsStale st a [] short stale = stale
  arrive-IsStale st a ((seq, x) ∷ xs) short stale =
      arrive-IsStale (accept st a seq x).0 a xs short.1 (accept-IsStale st a seq x short.0 stale)

  -- A segment that arrives twice before its turn blocks its address. Where two copies of the expected
  -- segment wait, the first is handed over; from then on, whatever numbers below 2 ^ 32 - 1 arrive
  -- from the address, no waiting segment is handed over without a threshold.
  pub duplicate_blocks :
      (st : OrderedState D) (a : ℕ) (b c : ℕ × D) (rest : List (ℕ × (ℕ × D)))
      (arrivals : List (ℕ × D))
      → st.recvd ≡ (st.expected_recv, b) ∷ (st.expected_recv, c) ∷ rest
      → st.expected_recv + 1 < 4294967296
      → All (λ s. s.0 + 1 < 4294967296) arrivals
      → (st' : OrderedState D) × (pop_ready none st ≡ some (st', b))
        × (pop_ready none (arrive st' a arrivals) ≡ none)
  unfolding pop_ready
  duplicate_blocks st a b c rest arrivals heap short all_short = (
    popped,
    ap (pop_head none st) heap ∙ rw (==_self st.expected_recv),
    IsStale-pop (arrive popped a arrivals) (
        arrive-IsStale popped a arrivals all_short
          ((st.expected_recv, c), rest, refl, omega arith)),
  )
    where
      popped : OrderedState D
      popped = record st {
        expected_recv = u32 (st.expected_recv + 1);
        recvd = (st.expected_recv, c) ∷ rest;
      }
