-- ===== src/Util/Steered.antt =====
-- Every message that the socket hears reaches a connection for its address.
use tbm.Prelude.{
  ℕ, ◌==◌, ==_iff, ==_self, ◌≡◌, ◌<◌, refl, ap, ◌∙◌, sym, subst, Bool, false, List, [], ◌∷◌, ◌++◌,
  map, Option, none, some, get, get-insert, set_contains, some-injective, inl, inr, Bool-cases,
  arith,
}
use tbm.Util.Steer.{
  Steering, SteerEvent, heard, heard_error, drops, SteerStep, steered, unsent, SteerRun, polling,
  failed, no_slot, unwrap_panics, new_steering, hand_out, give_up, renew, steer_to, after_step,
  steer,
}

get-newer :
    (next a c from : ℕ) (handed : List (ℕ × ℕ))
    → c < next
    → get c handed ≡ some from
    → get c ((next, a) ∷ handed) ≡ some from
get-newer next a c from handed lt e = elim (Bool-cases (next == c)) [
  | inl same ↦ let is = (==_iff next c).0 same in absurd (omega (arith, lt, is))
  | inr other ↦ rw other e
]

module _ {D : Type 0} where
  -- The messages, in order, up to the end of the stream.
  unfoldable pub arrived : List (SteerEvent D) → List (ℕ × D)
  arrived [] = []
  arrived (heard [] ∷ events) = []
  arrived (heard (none ∷ slots) ∷ events) = arrived events
  arrived (heard (some msg ∷ slots) ∷ events) = msg ∷ arrived events
  arrived (heard_error e ∷ events) = []
  arrived (drops c ∷ events) = arrived events

  -- Each message has gone to a connection for its address.
  abbrev pub Owned : List (ℕ × ℕ) → List (ℕ × (ℕ × D)) → Type 0
  Owned handed [] = Unit {0}
  Owned handed ((c, (from, d)) ∷ sent) = (get c handed ≡ some from) × Owned handed sent

  -- All messages have been sent, in order and once each.
  pub record IsSteered (got : List (ℕ × D)) (s : Steering D) : Type 0 where
    pub all_sent : map (λ m. m.1) s.sent ≡ got
    pub owned : Owned s.handed s.sent
    pub below : (c from : ℕ) → get c s.handed ≡ some from → c < s.next

  -- The channel of each address but one is that of a connection for it.
  abbrev KnownBut : (ℕ → Bool) → Steering D → Type 0
  KnownBut but s = (a c : ℕ) → but a ≡ false → get a s.senders ≡ some c → get c s.handed ≡ some a

  map-snoc :
      (xs : List (ℕ × (ℕ × D))) (x : ℕ × (ℕ × D))
      → map (λ m. m.1) (xs ++ (x ∷ [])) ≡ map (λ m. m.1) xs ++ (x.1 ∷ [])
  map-snoc [] x = refl
  map-snoc (y ∷ xs) x = ap (λ rest. y.1 ∷ rest) (map-snoc xs x)

  Owned-snoc :
      (handed : List (ℕ × ℕ)) (xs : List (ℕ × (ℕ × D))) (c from : ℕ) (d : D)
      → Owned handed xs
      → get c handed ≡ some from
      → Owned handed (xs ++ ((c, (from, d)) ∷ []))
  Owned-snoc handed [] c from d owned is = (is, tt)
  Owned-snoc handed ((j, (a, e)) ∷ xs) c from d owned is =
      (owned.0, Owned-snoc handed xs c from d owned.1 is)

  Owned-newer :
      (next a : ℕ) (handed : List (ℕ × ℕ)) (xs : List (ℕ × (ℕ × D)))
      → ((c from : ℕ) → get c handed ≡ some from → c < next)
      → Owned handed xs
      → Owned ((next, a) ∷ handed) xs
  Owned-newer next a handed [] below owned = tt
  Owned-newer next a handed ((c, (from, d)) ∷ xs) below owned = (
    get-newer next a c from handed (below c from owned.0) owned.0,
    Owned-newer next a handed xs below owned.1,
  )

  snoc_lem :
      (xs : List (ℕ × D)) (x : ℕ × D) (ys : List (ℕ × D)) → (xs ++ (x ∷ [])) ++ ys ≡ xs ++ (x ∷ ys)
  snoc_lem [] x ys = refl
  snoc_lem (z ∷ xs) x ys = ap (λ rest. z ∷ rest) (snoc_lem xs x ys)

  nil_lem : (xs : List (ℕ × D)) → xs ≡ xs ++ []
  nil_lem [] = refl
  nil_lem (x ∷ xs) = ap (λ rest. x ∷ rest) (nil_lem xs)

module _ {D : Type 0} (keeps : ℕ → ℕ → Bool) where
  -- The state after a message, or the connection that did not keep its receiver.
  abbrev AfterStep : List (ℕ × D) → SteerStep D → Type 0
  AfterStep got (steered s) = IsSteered got s × KnownBut (λ a. false) s
  AfterStep got (unsent from c) = keeps from c ≡ false

  hand_out-IsSteered :
      (got : List (ℕ × D)) (from : ℕ) (d : D) (s : Steering D)
      → IsSteered got s
      → KnownBut (λ a. from == a) s
      → IsSteered (got ++ ((from, d) ∷ [])) (hand_out keeps from d s)
        × KnownBut (λ a. false) (hand_out keeps from d s)
  hand_out-IsSteered got from d s k known = (
    record {
      all_sent = map-snoc s.sent (s.next, (from, d)) ∙ ap (λ g. g ++ ((from, d) ∷ [])) k.all_sent;
      owned =
          Owned-snoc ((s.next, from) ∷ s.handed) s.sent s.next from d
            (Owned-newer s.next from s.handed s.sent k.below k.owned) (rw (==_self s.next));
      below = λ c a e. elim (Bool-cases (s.next == c)) [
        | inl same ↦ let is = (==_iff s.next c).0 same in omega (arith, is)
        | inr other ↦ let lt = k.below c a (rw (other) at e) in omega (arith, lt)
      ];
    },
    λ a c but e. elim (Bool-cases (from == a)) [
      | inl same ↦
          let is = some-injective (rw (same) at (sym (get-insert a from s.next s.senders) ∙ e)) in
          subst (λ j. get j ((s.next, from) ∷ s.handed) ≡ some a) is
            (rw (==_self s.next) (ap some ((==_iff from a).0 same)))
      | inr other ↦
          let was =
            known a c other (rw (other) at (sym (get-insert a from s.next s.senders) ∙ e)) in
          get-newer s.next from c a s.handed (k.below c a was) was
    ],
  )

  renew-AfterStep :
      (got : List (ℕ × D)) (from : ℕ) (d : D) (s : Steering D)
      → IsSteered got s
      → KnownBut (λ a. from == a) s
      → AfterStep (got ++ ((from, d) ∷ [])) (renew keeps from d s)
  renew-AfterStep got from d s k known = elim (Bool-cases (keeps from s.next)) [
    | inl kept ↦ rw kept (hand_out-IsSteered got from d s k known)
    | inr lost ↦ rw lost lost
  ]

  give_up-IsSteered :
      (got : List (ℕ × D)) (from : ℕ) (s : Steering D)
      → IsSteered got s
      → IsSteered got (give_up keeps from s)
  give_up-IsSteered got from s k = record {
    all_sent = k.all_sent;
    owned = k.owned;
    below = λ c a e. let lt = k.below c a e in omega (arith, lt);
  }

  steer_to-AfterStep :
      (got : List (ℕ × D)) (o : Option ℕ) (from : ℕ) (d : D) (s : Steering D)
      → get from s.senders ≡ o
      → IsSteered got s
      → KnownBut (λ a. false) s
      → AfterStep (got ++ ((from, d) ∷ [])) (steer_to keeps o from d s)
  steer_to-AfterStep got none from d s e k known = elim (Bool-cases (keeps from s.next)) [
    | inl kept ↦ rw kept (hand_out-IsSteered got from d s k (λ a c but. known a c refl))
    | inr lost ↦ rw lost (
        renew-AfterStep got from d (give_up keeps from s) (give_up-IsSteered got from s k)
          (λ a c other there.
            known a c refl (rw (other) at (sym (get-insert a from s.next s.senders) ∙ there))))
  ]
  steer_to-AfterStep got (some c) from d s e k known =
      elim (Bool-cases (set_contains s.dropped c)) [
        | inl gone ↦ rw gone (renew-AfterStep got from d s k (λ a j but. known a j refl))
        | inr there ↦ rw there (
          record {
            all_sent = map-snoc s.sent (c, (from, d)) ∙ ap (λ g. g ++ ((from, d) ∷ [])) k.all_sent;
            owned = Owned-snoc s.handed s.sent c from d k.owned (known from c refl e);
            below = k.below;
          },
          known,
        )
      ]

  -- What holds of the stream, however it stands.
  abbrev pub Steers : List (ℕ × D) → SteerRun D → Type 0
  Steers got (polling s) = IsSteered got s
  Steers got (failed e s) = IsSteered got s
  Steers got (no_slot s) = IsSteered got s
  Steers got (unwrap_panics from c) = keeps from c ≡ false

  after_step-Steers :
      (got : List (ℕ × D)) (x : ℕ × D) (rest : List (ℕ × D)) (step : SteerStep D)
      (again : Steering D → SteerRun D)
      → AfterStep (got ++ (x ∷ [])) step
      → ((s : Steering D)
          → IsSteered (got ++ (x ∷ [])) s
          → KnownBut (λ a. false) s
          → Steers ((got ++ (x ∷ [])) ++ rest) (again s))
      → Steers (got ++ (x ∷ rest)) (after_step keeps step again)
  after_step-Steers got x rest (steered s) again holds later =
      subst (λ g. Steers g (again s)) (snoc_lem got x rest) (later s holds.0 holds.1)
  after_step-Steers got x rest (unsent from c) again holds later = holds

  run-Steers :
      (got : List (ℕ × D)) (events : List (SteerEvent D)) (s : Steering D)
      → IsSteered got s
      → KnownBut (λ a. false) s
      → Steers (got ++ arrived events) (steer keeps events s)
  unfolding steer arrived
  run-Steers got [] s k known = subst (λ g. IsSteered g s) (nil_lem got) k
  run-Steers got (heard [] ∷ events) s k known = subst (λ g. IsSteered g s) (nil_lem got) k
  run-Steers got (heard (none ∷ slots) ∷ events) s k known = run-Steers got events s k known
  run-Steers got (heard (some (from, d) ∷ slots) ∷ events) s k known =
      after_step-Steers got (from, d) (arrived events)
        (steer_to keeps (get from s.senders) from d s) (steer keeps events)
        (steer_to-AfterStep got (get from s.senders) from d s refl k known)
        (run-Steers (got ++ ((from, d) ∷ [])) events)
  run-Steers got (heard_error e ∷ events) s k known = subst (λ g. IsSteered g s) (nil_lem got) k
  run-Steers got (drops c ∷ events) s k known =
      run-Steers got events (record s { dropped = c ∷ s.dropped })
        (record { all_sent = k.all_sent; owned = k.owned; below = k.below }) known

  -- Whatever the socket hears, and whichever connections drop their receivers: every message is sent once,
  -- in the order of arrival, to a connection that the stream returned for its address; the stream panics
  -- on a send only where a new connection has not kept its receiver.
  pub steer-Steers :
      (events : List (SteerEvent D)) → Steers (arrived events) (steer keeps events new_steering)
  unfolding new_steering
  steer-Steers events =
      run-Steers [] events new_steering
        (record { all_sent = refl; owned = tt; below = λ c from e. absurd (cc e) })
        (λ a c but e. absurd (cc e))
