-- ===== src/Util/Matched.antt =====
-- A `recv_msg` returns the response to its request.
use tbm.Prelude.{
  ℕ, zero, suc, ltb, ◌==◌, ==_iff, ◌≡◌, ◌≢◌, ◌≤◌, ◌<◌, refl, ap, ◌∙◌, sym, false, List, [], ◌∷◌,
  Option, none, some, get, get-insert, get-remove, contains_key, insert, remove, set_contains,
  some-injective, ok, err, returns, panics, inl, inr, Bool-cases, arith,
}
use tbm.Util.Matcher.{
  Matcher, Elsewhere, sends, starts, receives, leaves, MatchEvent, polled, received, recv_failed,
  elsewhere, MatchRun, waiting, returned, Handed, handed, broken, register_msg, hand_over, and_more,
  hand_slots, after_handed, elapse, poll_receiver, after_received, wait_msg,
}

module _ {D : Type 0} (id : D → ℕ) where
  -- The token is given out, for messages with one id only.
  pub record IsFor (msg_id token : ℕ) (m : Matcher D) : Type 0 where
    pub given : token < m.next
    pub asked : (i : ℕ) → get i m.inflight ≡ some token → i ≡ msg_id
    pub got : (msg : D) → get token m.values ≡ some msg → id msg ≡ msg_id

  -- Each receiver is for its id, and no token ahead is in use.
  pub record IsMatched (m : Matcher D) : Type 0 where
    pub each : (i token : ℕ) → get i m.sent ≡ some token → IsFor i token m
    pub ahead_free : (token : ℕ) → m.next ≤ token → get token m.values ≡ none
    pub ahead_unasked : (i token : ℕ) → m.next ≤ token → get i m.inflight ≢ some token
    pub ahead_open : (token : ℕ) → m.next ≤ token → set_contains m.closed token ≡ false

  pub register-IsFor :
      (msg : D) (msg_id token : ℕ) (m : Matcher D)
      → IsFor msg_id token m
      → IsFor msg_id token (register_msg id msg m)
  unfolding register_msg
  register-IsFor msg msg_id token m k = elim (Bool-cases (contains_key (id msg) m.sent)) [
    | inl known ↦ rw known k
    | inr new ↦ rw new (record {
      given = omega (arith, k.given);
      asked = λ i e. elim (Bool-cases (id msg == i)) [
        | inl same ↦
            let taken =
              some-injective (rw (same) at (sym (get-insert i (id msg) m.next m.inflight) ∙ e)) in
            absurd (omega (arith, taken, k.given))
        | inr other ↦ k.asked i (rw (other) at (sym (get-insert i (id msg) m.next m.inflight) ∙ e))
      ];
      got = k.got;
    })
  ]

  pub taken-IsFor :
      (i msg_id token : ℕ) (m : Matcher D)
      → IsFor msg_id token m
      → IsFor msg_id token (record m { inflight = remove i m.inflight })
  taken-IsFor i msg_id token m k = record {
    given = k.given;
    asked = λ j there. elim (Bool-cases (i == j)) [
      | inl same ↦ absurd (cc (rw (same) at (sym (get-remove j i m.inflight) ∙ there)))
      | inr other ↦ k.asked j (rw (other) at (sym (get-remove j i m.inflight) ∙ there))
    ];
    got = k.got;
  }

  pub handed-IsFor :
      (msg : D) (t msg_id token : ℕ) (m : Matcher D)
      → get (id msg) m.inflight ≡ some t
      → IsFor msg_id token m
      → IsFor msg_id token
          (record m { inflight = remove (id msg) m.inflight; values = insert t msg m.values })
  handed-IsFor msg t msg_id token m is k = record {
    given = k.given;
    asked = (taken-IsFor (id msg) msg_id token m k).asked;
    got = λ d there. elim (Bool-cases (t == token)) [
      | inl same ↦
          let here =
            some-injective (rw (same) at (sym (get-insert token t msg m.values) ∙ there)) in
          ap id (sym here) ∙ k.asked (id msg) (is ∙ ap some ((==_iff t token).0 same))
      | inr other ↦ k.got d (rw (other) at (sym (get-insert token t msg m.values) ∙ there))
    ];
  }

  -- What holds of the state, whether or not there has been a panic.
  abbrev pub Still : (Matcher D → Type 0) → Handed D → Type 0
  Still P (handed m) = P m
  Still P (broken m) = P m

  hand_over-IsFor :
      (msg : D) (o : Option ℕ) (msg_id token : ℕ) (m : Matcher D)
      → get (id msg) m.inflight ≡ o
      → IsFor msg_id token m
      → Still (IsFor msg_id token) (hand_over id msg o m)
  hand_over-IsFor msg none msg_id token m is k = k
  hand_over-IsFor msg (some t) msg_id token m is k = elim (Bool-cases (set_contains m.closed t)) [
    | inl gone ↦ rw gone (taken-IsFor (id msg) msg_id token m k)
    | inr lives ↦ rw lives (handed-IsFor msg t msg_id token m is k)
  ]

  pub and_more-Still :
      (P : Matcher D → Type 0) (o : Handed D) (next : Matcher D → Handed D)
      → Still P o
      → ((m : Matcher D) → P m → Still P (next m))
      → Still P (and_more id o next)
  and_more-Still P (handed m) next holds more = more m holds
  and_more-Still P (broken m) next holds more = holds

  hand_slots-IsFor :
      (n : ℕ) (slots : List (Option D)) (msg_id token : ℕ) (m : Matcher D)
      → IsFor msg_id token m
      → Still (IsFor msg_id token) (hand_slots id n slots m)
  unfolding hand_slots
  hand_slots-IsFor zero slots msg_id token m k = k
  hand_slots-IsFor (suc n) [] msg_id token m k = k
  hand_slots-IsFor (suc n) (none ∷ slots) msg_id token m k =
      hand_slots-IsFor n slots msg_id token m k
  hand_slots-IsFor (suc n) (some d ∷ slots) msg_id token m k =
      and_more-Still (IsFor msg_id token) (hand_over id d (get (id d) m.inflight) m)
        (hand_slots id n slots) (hand_over-IsFor d (get (id d) m.inflight) msg_id token m refl k)
        (hand_slots-IsFor n slots msg_id token)

  pub after_handed-Still :
      (P : Matcher D → Type 0) (h : Handed D) → Still P h → P (after_handed id h)
  after_handed-Still P (handed m) holds = holds
  after_handed-Still P (broken m) holds = holds

  elapse-IsFor :
      (e : Elsewhere D) (msg_id token : ℕ) (m : Matcher D)
      → IsFor msg_id token m
      → IsFor msg_id token (elapse id e m)
  elapse-IsFor (sends d) msg_id token m k = register-IsFor d msg_id token m k
  elapse-IsFor (starts i) msg_id token m k = record {
    given = k.given;
    asked = k.asked;
    got = k.got;
  }
  elapse-IsFor (receives slots) msg_id token m k =
      after_handed-Still (IsFor msg_id token) (hand_slots id 4 slots m)
        (hand_slots-IsFor 4 slots msg_id token m k)
  elapse-IsFor (leaves t) msg_id token m k = elim (Bool-cases (ltb t m.next)) [
    | inl held ↦ rw held (record { given = k.given; asked = k.asked; got = k.got })
    | inr free ↦ rw free k
  ]

  -- What is returned, if anything.
  abbrev pub Answers : ℕ → MatchRun D → Type 0
  Answers msg_id (waiting m) = Unit {0}
  Answers msg_id (returned panics m) = Unit {0}
  Answers msg_id (returned (returns (err e)) m) = Unit {0}
  Answers msg_id (returned (returns (ok d)) m) = id d ≡ msg_id

  poll-Answers :
      (msg_id token : ℕ) (o : Option D) (again : Matcher D → MatchRun D) (m : Matcher D)
      → get token m.values ≡ o
      → IsFor msg_id token m
      → Answers msg_id (again m)
      → Answers msg_id (poll_receiver id token o again m)
  poll-Answers msg_id token (some d) again m e k later = k.got d e
  poll-Answers msg_id token none again m e k later =
      elim (Bool-cases (set_contains m.dropped token)) [
        | inl gone ↦ rw gone tt
        | inr there ↦ rw there later
      ]

  received-Answers :
      (msg_id token : ℕ) (h : Handed D) (again : Matcher D → MatchRun D)
      → Still (IsFor msg_id token) h
      → ((m : Matcher D) → IsFor msg_id token m → Answers msg_id (again m))
      → Answers msg_id (after_received id token h again)
  received-Answers msg_id token (handed m) again k later = later m k
  received-Answers msg_id token (broken m) again k later = tt

  pub wait-Answers :
      (msg_id token : ℕ) (events : List (MatchEvent D)) (m : Matcher D)
      → IsFor msg_id token m
      → Answers msg_id (wait_msg id token events m)
  unfolding wait_msg
  wait-Answers msg_id token [] m k = tt
  wait-Answers msg_id token (polled ∷ events) m k =
      poll-Answers msg_id token (get token m.values) (wait_msg id token events) m refl k
        (wait-Answers msg_id token events m k)
  wait-Answers msg_id token (received slots ∷ events) m k =
      received-Answers msg_id token (hand_slots id 4 slots m) (wait_msg id token events)
        (hand_slots-IsFor 4 slots msg_id token m k) (wait-Answers msg_id token events)
  wait-Answers msg_id token (recv_failed e ∷ events) m k = tt
  wait-Answers msg_id token (elsewhere e ∷ events) m k =
      wait-Answers msg_id token events (elapse id e m) (elapse-IsFor e msg_id token m k)
