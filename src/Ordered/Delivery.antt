-- ===== src/Ordered/Delivery.antt =====
-- In-order delivery without a threshold: whatever the network drops, repeats or reorders, what a
-- receiver hands over from an address is a prefix of what was sent to it.
use tbm.Prelude.{
  ℕ, zero, suc, ◌+◌, ◌<◌, ◌==◌, ltb, leb, ◌≡◌, refl, sym, ap, ◌∙◌, true, false, List, [], ◌∷◌, ◌++◌,
  Option, none, some, if◌then◌else◌, get, insert, get-insert, cons_some, length, arith, All,
  Bool-cases, ==_iff, inl, inr, Unique, insert-Unique, subst, ==_self,
}
use mathlib.Core.List.{append-nil}
use tbm.Ordered.{OrderedState, Segment, States, or_default, push, accept, u32}

module _ {D : Type 0} where
  abbrev pub get_elem? : List D → ℕ → Option D
  get_elem? [] i = none
  get_elem? (x ∷ xs) zero = some x
  get_elem? (x ∷ xs) (suc i) = get_elem? xs i

  abbrev pub take : ℕ → List D → List D
  take zero xs = []
  take (suc n) [] = []
  take (suc n) (x ∷ xs) = x ∷ take n xs

  get_elem?-lt : (xs : List D) (i : ℕ) {x : D} → get_elem? xs i ≡ some x → i < length xs
  get_elem?-lt [] i h = absurd (cc)
  get_elem?-lt (x ∷ xs) zero h = omega arith
  get_elem?-lt (x ∷ xs) (suc i) h = omega (arith, get_elem?-lt xs i h)

  take-suc :
      (xs : List D) (i : ℕ) (x : D)
      → get_elem? xs i ≡ some x
      → take (suc i) xs ≡ take i xs ++ x ∷ []
  take-suc [] i x h = absurd (cc)
  take-suc (y ∷ xs) zero x h = cc
  take-suc (y ∷ xs) (suc i) x h = ap (◌∷◌ y) (take-suc xs i x h)

  -- What a list of deliveries holds from one address.
  abbrev pub from : ℕ → List (ℕ × D) → List D
  from a [] = []
  from a ((b, body) ∷ out) = if b == a then body ∷ from a out else from a out

  from-append : (a : ℕ) (xs ys : List (ℕ × D)) → from a (xs ++ ys) ≡ from a xs ++ from a ys
  from-append a [] ys = refl
  from-append a ((b, body) ∷ xs) ys = ground (arith, from-append a xs ys)

  -- The number that an address is expected to send next.
  abbrev pub expected : ℕ → States D → ℕ
  expected a m = (or_default (get a m)).expected_recv

-- What holds of the state that is written, and of all others, holds of every state afterwards.
module _ {D : Type 0} (P : ℕ → OrderedState D → Type 0) where
  pub at_written :
      (a : ℕ) (st : OrderedState D) (m : States D)
      → P a st
      → ((b : ℕ) → (a == b) ≡ false → P b (or_default (get b m)))
      → (b : ℕ) → P b (or_default (get b (insert a st m)))
  at_written a st m here others b = elim (Bool-cases (a == b)) [
    | inl e ↦
        subst (λ o. P b (or_default o)) (sym (at_key e))
          (subst (λ c. P c st) ((==_iff a b).0 e) here)
    | inr e ↦ subst (λ o. P b (or_default o)) (sym (off_key e)) (others b e)
  ]
    where
      at_key : (a == b) ≡ true → get b (insert a st m) ≡ some st
      at_key e = get-insert b a st m ∙ rw e

      off_key : (a == b) ≡ false → get b (insert a st m) ≡ get b m
      off_key e = get-insert b a st m ∙ rw e

-- `stream a` is what was sent to the receiver from `a`; a segment is genuine if its data stand there at
-- its number.
module _ {D : Type 0} (stream : ℕ → List D) where
  abbrev pub IsGenuine : Segment D → Type 0
  IsGenuine s = get_elem? (stream s.0) s.1.0 ≡ some s.1.1

  -- A segment that waits in the state of `a`.
  abbrev pub IsWaiting : ℕ → (ℕ × (ℕ × D)) → Type 0
  IsWaiting a e = (e.1.0 ≡ a) × (get_elem? (stream a) e.0 ≡ some e.1.1)

  abbrev pub AllWaiting : States D → Type 0
  AllWaiting m = (a : ℕ) → All (IsWaiting a) (or_default (get a m)).recvd

  -- After the deliveries `out`: no address has two states, what waits is genuine, and from each address
  -- the first `expected` data of its stream have been delivered, in order.
  pub record InOrder (m : States D) (out : List (ℕ × D)) : Type 0 where
    pub unique : Unique m
    pub waiting : AllWaiting m
    pub prefix : (a : ℕ) → from a out ≡ take (expected a m) (stream a)

  All-push :
      (a : ℕ) (e : ℕ × (ℕ × D)) (xs : List (ℕ × (ℕ × D)))
      → IsWaiting a e
      → All (IsWaiting a) xs
      → All (IsWaiting a) (push e xs)
  unfolding push
  All-push a e [] h w = (h, tt)
  All-push a e (x ∷ xs) h w = elim (Bool-cases (leb e.0 x.0)) [
    | inl p ↦ rw p (h, (w.0, w.1))
    | inr p ↦ rw p (w.0, All-push a e xs h w.1)
  ]

  -- A state that expects the same number as before delivers nothing.
  keep-InOrder :
      (a : ℕ) (st : OrderedState D) (m : States D) (out : List (ℕ × D))
      → InOrder m out
      → st.expected_recv ≡ expected a m
      → All (IsWaiting a) st.recvd
      → InOrder (insert a st m) out
  keep-InOrder a st m out k same w = record {
    unique = insert-Unique a st m k.unique;
    waiting = at_written (λ b s. All (IsWaiting b) s.recvd) a st m w (λ b e. k.waiting b);
    prefix =
        at_written (λ b s. from b out ≡ take s.expected_recv (stream b)) a st m
          (k.prefix a ∙ ap (λ i. take i (stream a)) (sym same)) (λ b e. k.prefix b);
  }

  -- A state that has moved on by one delivers the data of the number that was expected.
  pub move-InOrder :
      (a : ℕ) (x : D) (st : OrderedState D) (m : States D) (out : List (ℕ × D))
      → InOrder m out
      → st.expected_recv ≡ suc (expected a m)
      → get_elem? (stream a) (expected a m) ≡ some x
      → All (IsWaiting a) st.recvd
      → InOrder (insert a st m) (out ++ (a, x) ∷ [])
  move-InOrder a x st m out k next here w = record {
    unique = insert-Unique a st m k.unique;
    waiting = at_written (λ b s. All (IsWaiting b) s.recvd) a st m w (λ b e. k.waiting b);
    prefix =
        at_written (λ b s. from b (out ++ (a, x) ∷ []) ≡ take s.expected_recv (stream b)) a st m
          (from-append a out ((a, x) ∷ [])
            ∙ rw (==_self a) (ap (λ l. l ++ x ∷ []) (k.prefix a))
            ∙ sym (take-suc (stream a) (expected a m) x here)
            ∙ ap (λ i. take i (stream a)) (sym next))
          (λ b e. from-append b out ((a, x) ∷ []) ∙ rw (e, append-nil) (k.prefix b));
  }

  -- The streams are shorter than the numbers' range.
  abbrev pub IsShort : Type 0
  IsShort = (a : ℕ) → length (stream a) < 4294967296

  pub next_number :
      (a seq : ℕ) {x : D} → IsShort → get_elem? (stream a) seq ≡ some x → u32 (seq + 1) ≡ suc seq
  next_number a seq short h = omega (arith, get_elem?-lt (stream a) seq h, short a)

  -- The states and the deliveries so far, after a step that adds to them.
  abbrev pub Adds : List (ℕ × D) → States D × List (ℕ × D) → Type 0
  Adds out r = InOrder r.0 (out ++ r.1)

  pub accept-InOrder :
      (a seq : ℕ) (x : D) (m : States D) (out : List (ℕ × D))
      → IsShort
      → InOrder m out
      → get_elem? (stream a) seq ≡ some x
      → InOrder
          (insert a (accept (or_default (get a m)) a seq x).0 m)
          (out ++ cons_some (accept (or_default (get a m)) a seq x).1 [])
  unfolding accept
  accept-InOrder a seq x m out short k g = elim (Bool-cases (seq == expected a m)) [
    | inl e ↦
        let same = (==_iff seq (expected a m)).0 e in
        rw e (
          move-InOrder a x _ m out k (rw (← same) (next_number a seq short g)) (rw (← same) g)
            (k.waiting a))
    | inr e ↦ elim (Bool-cases (ltb (expected a m) seq)) [
      | inl f ↦
          rw (e, f, append-nil)
            (keep-InOrder a _ m out k refl (All-push a (seq, (a, x)) _ (refl, g) (k.waiting a)))
      | inr f ↦ rw (e, f, append-nil) (keep-InOrder a _ m out k refl (k.waiting a))
    ]
  ]
