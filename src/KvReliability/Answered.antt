-- ===== src/KvReliability/Answered.antt =====
-- What is kept of the packets of a `send` while their responses come in.
use tbm.Prelude.{
  remove, get-remove, ℕ, suc, ◌≤◌, ◌==◌, ◌≡◌, refl, sym, ap, ◌∙◌, true, List, [], ◌∷◌, Memᴰ, some,
  get, get-insert, all, all-mem, set_contains, Bool-cases, ==_iff, some-injective, inl, inr, ◌⊎◌,
  arith, ltb, ltb→lt, mem_of_get, all-contains,
}
use tbm.KvReliability.{KvReliability, register, register_all, tokens}

pub kept : (j k : ℕ) (m : List (ℕ × ℕ)) (i : ℕ) → get j (remove k m) ≡ some i → get j m ≡ some i
kept j k m i h = elim (Bool-cases (k == j)) [
  | inl e ↦ absurd (cc (rw (get-remove j k m, e) at h))
  | inr e ↦ rw (get-remove j k m, e) at h
]

module _ {A D : Type 0} (id : D → ℕ) where
  tokens-le : (ps : List (A × D)) (n i : ℕ) (p : A × D) → Memᴰ (i, p) (tokens id ps n) → n ≤ i
  tokens-le [] n i p m = elim m [ ]
  tokens-le (q ∷ ps) n i p (Memᴰ.head e) = omega (arith, ap (λ (x : ℕ × (A × D)). x.0) e)
  tokens-le (q ∷ ps) n i p (Memᴰ.tail m) = omega (arith, tokens-le ps (suc n) i p m)

  tokens-same :
      (ps : List (A × D)) (n i : ℕ) (p q : A × D)
      → Memᴰ (i, p) (tokens id ps n)
      → Memᴰ (i, q) (tokens id ps n)
      → p ≡ q
  tokens-same [] n i p q a b = elim a [ ]
  tokens-same (r ∷ ps) n i p q (Memᴰ.head e) (Memᴰ.head f) =
      ap (λ (x : ℕ × (A × D)). x.1) e ∙ sym (ap (λ (x : ℕ × (A × D)). x.1) f)
  tokens-same (r ∷ ps) n i p q (Memᴰ.head e) (Memᴰ.tail b) =
      absurd (omega (arith, ap (λ (x : ℕ × (A × D)). x.0) e, tokens-le ps (suc n) i q b))
  tokens-same (r ∷ ps) n i p q (Memᴰ.tail a) (Memᴰ.head f) =
      absurd (omega (arith, ap (λ (x : ℕ × (A × D)). x.0) f, tokens-le ps (suc n) i p a))
  tokens-same (r ∷ ps) n i p q (Memᴰ.tail a) (Memᴰ.tail b) = tokens-same ps (suc n) i p q a b

  -- A response to a packet.
  abbrev pub Heard : A × D → List (A × D) → Type 0
  Heard p whole = (r : A × D) × Memᴰ r whole × (id r.1 ≡ id p.1)

  -- Of the tokens of a burst, the map has each under the id of its packet, and those answered have had
  -- a response.
  pub record Tracks (toks : List (ℕ × (A × D))) (whole : List (A × D)) (s : KvReliability A D)
      : Type 0 where
    pub own : (k i : ℕ) (p : A × D) → get k s.sends ≡ some i → Memᴰ (i, p) toks → id p.1 ≡ k
    pub done :
        (i : ℕ) (p : A × D) → set_contains s.answered i ≡ true → Memᴰ (i, p) toks → Heard p whole

  register_all-sends :
      (ps : List (A × D)) (s : KvReliability A D) (k i : ℕ)
      → get k (register_all id ps s).sends ≡ some i
      → (get k s.sends ≡ some i) ⊎ ((p : A × D) × Memᴰ (i, p) (tokens id ps s.next) × (id p.1 ≡ k))
  unfolding register_all
  register_all-sends [] s k i h = inl h
  register_all-sends (q ∷ ps) s k i h = elim (register_all-sends ps (register id q s) k i h) [
    | inl e ↦ elim (Bool-cases (id q.1 == k)) [
      | inl same ↦ inr (
        q,
        Memᴰ.head (
            ap (λ x. (x, q))
              (sym (some-injective (rw (get-insert k (id q.1) s.next s.sends, same) at e)))),
        (==_iff (id q.1) k).0 same,
      )
      | inr other ↦ inl (rw (get-insert k (id q.1) s.next s.sends, other) at e)
    ]
    | inr (p, m, e) ↦ inr (p, Memᴰ.tail m, e)
  ]

  register_all-answered :
      (ps : List (A × D)) (s : KvReliability A D) → (register_all id ps s).answered ≡ s.answered
  unfolding register_all
  register_all-answered [] s = refl
  register_all-answered (q ∷ ps) s = register_all-answered ps (register id q s)

  pub tokens-mem :
      (ps : List (A × D)) (n : ℕ) (p : A × D) → Memᴰ p ps → (i : ℕ) × Memᴰ (i, p) (tokens id ps n)
  tokens-mem [] n p m = elim m [ ]
  tokens-mem (q ∷ ps) n p (Memᴰ.head e) = (n, Memᴰ.head (ap (λ x. (n, x)) e))
  tokens-mem (q ∷ ps) n p (Memᴰ.tail m) =
      let (i, there) = tokens-mem ps (suc n) p m in (i, Memᴰ.tail there)

  -- Tokens are numbered below the next one.
  abbrev pub IsNumbered : KvReliability A D → Type 0
  IsNumbered s =
      (all (λ e. ltb e.1 s.next) s.sends ≡ true) × (all (λ i. ltb i s.next) s.answered ≡ true)

  pub register_all-Tracks :
      (ps : List (A × D)) (s : KvReliability A D) (whole : List (A × D))
      → IsNumbered s
      → Tracks (tokens id ps s.next) whole (register_all id ps s)
  register_all-Tracks ps s whole (old, answered) = record {
    own = λ k i p h m. elim (register_all-sends ps s k i h) [
      | inl e ↦
          let below =
            ltb→lt i s.next
              (all-mem (λ x. ltb x.1 s.next) (k, i) s.sends old (mem_of_get k i s.sends e)) in
          absurd (omega (arith, below, tokens-le ps s.next i p m))
      | inr (q, n, e) ↦ ap (λ (x : A × D). id x.1) (tokens-same ps s.next i p q m n) ∙ e
    ];
    done = λ i p h m.
        let below = ltb→lt i s.next (
          all-contains (λ x. ltb x s.next) s.answered i answered
            (rw (register_all-answered ps s) at h)) in
        absurd (omega (arith, below, tokens-le ps s.next i p m));
  }
