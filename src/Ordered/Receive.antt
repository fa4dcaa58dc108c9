-- ===== src/Ordered/Receive.antt =====
-- In-order delivery by `recv`, over any number of calls.
use tbm.Prelude.{
  ℕ, zero, suc, ◌==◌, ◌≡◌, refl, sym, ap, ◌∙◌, List, [], ◌∷◌, ◌++◌, Option, none, some, get, insert,
  cons_some, Result, ok, err, Memᴰ, All, Bool-cases, Option-cases, ==_iff, inl, inr, get_of_mem,
  subst, some-injective,
}
use mathlib.Core.List.{append-nil, append_assoc}
use tbm.Ordered.{
  OrderedState, Segment, States, or_default, pop_head, pop_ready, or_later, first_ready, peel,
  accept, fill, Recv, if_any, recv_loop, recv, states_of, handed,
}
use tbm.Ordered.Delivery.{
  IsGenuine, IsWaiting, InOrder, IsShort, Adds, accept-InOrder, move-InOrder, next_number, expected,
  get_elem?,
}

cons_some-append {ℓ} :
    {A : Type ℓ} (o : Option A) (ys : List A) → cons_some o ys ≡ cons_some o [] ++ ys
cons_some-append none ys = refl
cons_some-append (some y) ys = refl

module _ {D : Type 0} (stream : ℕ → List D) where
  -- What the inner connection yields is genuine.
  abbrev pub GenuineBatch : Result (List (Segment D)) → Type 0
  GenuineBatch (ok msgs) = All (IsGenuine stream) msgs
  GenuineBatch (err e) = Unit

module _ {D : Type 0} (stream : ℕ → List D) (short : IsShort stream) where
  fill-InOrder :
      (m : States D) (msgs : List (Segment D)) (out : List (ℕ × D))
      → All (IsGenuine stream) msgs
      → InOrder stream m out
      → Adds stream out (fill m msgs)
  unfolding fill
  fill-InOrder m [] out g k = rw append-nil k
  fill-InOrder m ((a, (seq, x)) ∷ msgs) out g k =
      let first = accept (or_default (get a m)) a seq x in
      let rest = fill (insert a first.0 m) msgs in
      subst (InOrder stream rest.0)
        (append_assoc out (cons_some first.1 []) rest.1
          ∙ ap (λ l. out ++ l) (sym (cons_some-append first.1 rest.1)))
        (fill-InOrder (insert a first.0 m) msgs (out ++ cons_some first.1 []) g.1
          (accept-InOrder stream a seq x m out short k g.0))

  -- A state without a threshold gives up the segment that it expects, and only that.
  record Pops (a : ℕ) (st st' : OrderedState D) (body : ℕ × D) : Type 0 where
    source : body.0 ≡ a
    here : get_elem? (stream a) st.expected_recv ≡ some body.1
    next : st'.expected_recv ≡ suc st.expected_recv
    waiting : All (IsWaiting stream a) st'.recvd

  pop_head-Pops :
      (a : ℕ) (st st' : OrderedState D) (body : ℕ × D) (heap : List (ℕ × (ℕ × D)))
      → All (IsWaiting stream a) heap
      → pop_head none st heap ≡ some (st', body)
      → Pops a st st' body
  pop_head-Pops a st st' body [] w h = absurd (cc)
  pop_head-Pops a st st' body ((seq, b) ∷ rest) w h = elim (Bool-cases (seq == st.expected_recv)) [
    | inl e ↦
        let same = (==_iff seq st.expected_recv).0 e in
        let popped = some-injective (rw e at h) in
        let b_eq = ap (λ (x : OrderedState D × (ℕ × D)). x.1) popped in
        let st_eq = ap (λ (x : OrderedState D × (ℕ × D)). x.0) popped in
        record {
          source = ap (λ (x : ℕ × D). x.0) (sym b_eq) ∙ w.0.0;
          here = ap (get_elem? (stream a)) (sym same) ∙ w.0.1 ∙ ap (λ (x : ℕ × D). some x.1) b_eq;
          next =
              ap (λ (x : OrderedState D). x.expected_recv) (sym st_eq)
              ∙ next_number stream a seq short w.0.1
              ∙ ap suc same;
          waiting = subst (λ (x : OrderedState D). All (IsWaiting stream a) x.recvd) st_eq w.1;
        }
    | inr e ↦ absurd (cc (rw e at h))
  ]

  first_ready-mem :
      (thresh : Option ℕ) (m : States D) (a : ℕ) (st' : OrderedState D) (body : ℕ × D)
      → first_ready thresh m ≡ some (a, st', body)
      → (st : OrderedState D) × Memᴰ (a, st) m × (pop_ready thresh st ≡ some (st', body))
  unfolding first_ready
  first_ready-mem thresh [] a st' body h = absurd (cc)
  first_ready-mem thresh ((b, st) ∷ m) a st' body h = elim (Option-cases (pop_ready thresh st)) [
    | inl e ↦
        let (s, there, p) = first_ready-mem thresh m a st' body (rw (e, or_later) at h) in
        (s, Memᴰ.tail there, p)
    | inr ((s, x), e) ↦
        let found : ◌≡◌ {A = ℕ × OrderedState D × (ℕ × D)} (b, s, x) (a, st', body) =
          some-injective (rw (e, or_later) at h) in
        (
          st,
          Memᴰ.head (ap (λ (t : ℕ × OrderedState D × (ℕ × D)). (t.0, st)) (sym found)),
          e ∙ ap (λ (t : ℕ × OrderedState D × (ℕ × D)). some (t.1, t.2)) found,
        )
  ]

  ready-InOrder :
      (m : States D) (a : ℕ) (st' : OrderedState D) (body : ℕ × D) (out : List (ℕ × D))
      → InOrder stream m out
      → first_ready none m ≡ some (a, st', body)
      → InOrder stream (insert a st' m) (out ++ body ∷ [])
  unfolding pop_ready
  ready-InOrder m a st' body out k h =
      let (st, there, popped) = first_ready-mem none m a st' body h in
      let at_a : or_default (get a m) ≡ st = ap or_default (get_of_mem a st m k.unique there) in
      let w = subst (λ (x : OrderedState D). All (IsWaiting stream a) x.recvd) at_a (k.waiting a) in
      let p = pop_head-Pops a st st' body st.recvd w popped in
      let number : expected a m ≡ st.expected_recv =
        ap (λ (x : OrderedState D). x.expected_recv) at_a in
      subst (λ (y : ℕ). InOrder stream (insert a st' m) (out ++ (y, body.1) ∷ [])) (sym p.source)
        (move-InOrder stream a body.1 st' m out k (p.next ∙ ap suc (sym number))
          (ap (get_elem? (stream a)) number ∙ p.here) p.waiting)

  peel-InOrder :
      (slots : ℕ) (m : States D) (out : List (ℕ × D))
      → InOrder stream m out
      → Adds stream out (peel none slots m)
  unfolding peel
  peel-InOrder zero m out k = rw append-nil k
  peel-InOrder (suc slots) m out k = elim (Option-cases (first_ready none m)) [
    | inl e ↦ rw (e, peel) (rw append-nil k)
    | inr ((a, st', body), e) ↦
        let rest = peel none slots (insert a st' m) in
        rw (e, peel)
          (subst (InOrder stream rest.0) (append_assoc out (body ∷ []) rest.1) (
            peel-InOrder slots (insert a st' m) (out ++ body ∷ [])
              (ready-InOrder m a st' body out k e)))
  ]

  if_any-InOrder :
      (m : States D) (found : List (ℕ × D)) (out : List (ℕ × D)) (later : Recv D)
      → InOrder stream m (out ++ found)
      → (InOrder stream m out → InOrder stream (states_of later) (out ++ handed later))
      → InOrder stream (states_of (if_any m found later)) (out ++ handed (if_any m found later))
  if_any-InOrder m [] out later k h = h (rw append-nil at k)
  if_any-InOrder m (x ∷ xs) out later k h = k

  recv_loop-InOrder :
      (slots : ℕ) (m : States D) (batches : List (Result (List (Segment D)))) (out : List (ℕ × D))
      → All (GenuineBatch stream) batches
      → InOrder stream m out
      → InOrder stream
          (states_of (recv_loop none slots m batches))
          (out ++ handed (recv_loop none slots m batches))
  unfolding recv_loop
  recv_loop-InOrder slots m [] out g k =
      if_any-InOrder _ _ out _ (peel-InOrder slots m out k) (λ j. rw append-nil j)
  recv_loop-InOrder slots m (err e ∷ batches) out g k =
      if_any-InOrder _ _ out _ (peel-InOrder slots m out k) (λ j. rw append-nil j)
  recv_loop-InOrder slots m (ok msgs ∷ batches) out g k =
      let m' = (peel none slots m).0 in
      if_any-InOrder _ _ out _ (peel-InOrder slots m out k) λ j.
        if_any-InOrder _ _ out _ (fill-InOrder m' msgs out g.0 j)
          λ l. recv_loop-InOrder slots (fill m' msgs).0 batches out g.1 l

  pub recv-InOrder :
      (slots : ℕ) (m : States D) (batches : List (Result (List (Segment D)))) (out : List (ℕ × D))
      → All (GenuineBatch stream) batches
      → InOrder stream m out
      → InOrder stream
          (states_of (recv none slots m batches))
          (out ++ handed (recv none slots m batches))
  unfolding recv
  recv-InOrder zero m batches out g k = rw append-nil k
  recv-InOrder (suc slots) m batches out g k = recv_loop-InOrder (suc slots) m batches out g k
