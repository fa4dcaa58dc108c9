-- ===== src/Util/Answered.antt =====
-- The states that `send_msg`, `recv_msg` and the connection's messages lead to, and what `recv_msg` returns.
use tbm.Prelude.{
  ℕ, zero, suc, ltb, ◌==◌, ==_iff, ==_self, ◌≡◌, ◌<◌, refl, ap, ◌∙◌, sym, subst, false, List, [],
  ◌∷◌, Option, none, some, if◌then◌else◌, get, get-insert, get-remove, contains_key, insert, remove,
  set_contains, some-injective, ok, Outcome, returns, inl, inr, Bool-cases, arith,
}
use tbm.Util.Matcher.{
  Matcher, new_matcher, Elsewhere, sends, starts, receives, leaves, MatchEvent, polled, received,
  returned, replaced, register_msg, hand_over, hand_slots, elapse, elapsed, send_msg, wait_msg,
  wait_known, recv_msg,
}
use tbm.Util.Matched.{
  IsFor, IsMatched, register-IsFor, taken-IsFor, handed-IsFor, Still, and_more-Still,
  after_handed-Still, Answers, wait-Answers,
}

module _ {D : Type 0} (id : D → ℕ) where
  new-IsMatched : IsMatched id new_matcher
  unfolding new_matcher
  new-IsMatched = record {
    each = λ i token e. absurd (cc e);
    ahead_free = λ token le. refl;
    ahead_unasked = λ i token le e. absurd (cc e);
    ahead_open = λ token le. refl;
  }

  abbrev registered : D → Matcher D → Matcher D
  registered msg m = record m {
    inflight = insert (id msg) m.next m.inflight;
    sent = insert (id msg) m.next m.sent;
    dropped = replaced (get (id msg) m.inflight) m.dropped;
    next = suc m.next;
  }

  registered-IsFor :
      (msg : D) (m : Matcher D) → IsMatched id m → IsFor id (id msg) m.next (registered msg m)
  registered-IsFor msg m good = record {
    given = omega (arith);
    asked = λ i e. elim (Bool-cases (id msg == i)) [
      | inl same ↦ sym ((==_iff (id msg) i).0 same)
      | inr other ↦ absurd (
          good.ahead_unasked i m.next (omega (arith))
            (rw (other) at (sym (get-insert i (id msg) m.next m.inflight) ∙ e)))
    ];
    got = λ d e. absurd (cc (good.ahead_free m.next (omega (arith)), e));
  }

  register-IsMatched :
      (msg : D) (m : Matcher D) → IsMatched id m → IsMatched id (register_msg id msg m)
  unfolding register_msg
  register-IsMatched msg m good = elim (Bool-cases (contains_key (id msg) m.sent)) [
    | inl known ↦ rw known good
    | inr new ↦ rw new (record {
      each = λ i token e. elim (Bool-cases (id msg == i)) [
        | inl same ↦
            let taken =
              some-injective (rw (same) at (sym (get-insert i (id msg) m.next m.sent) ∙ e)) in
            subst (λ j. IsFor id j token (registered msg m)) ((==_iff (id msg) i).0 same)
              (subst (λ t. IsFor id (id msg) t (registered msg m)) taken
                (registered-IsFor msg m good))
        | inr other ↦ rw (new) at (
            register-IsFor id msg i token m
              (good.each i token (rw (other) at (sym (get-insert i (id msg) m.next m.sent) ∙ e))))
      ];
      ahead_free = λ token le. good.ahead_free token (omega (arith, le));
      ahead_unasked = λ i token le e. elim (Bool-cases (id msg == i)) [
        | inl same ↦
            let taken =
              some-injective (rw (same) at (sym (get-insert i (id msg) m.next m.inflight) ∙ e)) in
            absurd (omega (arith, taken, le))
        | inr other ↦
            good.ahead_unasked i token (omega (arith, le))
              (rw (other) at (sym (get-insert i (id msg) m.next m.inflight) ∙ e))
      ];
      ahead_open = λ token le. good.ahead_open token (omega (arith, le));
    })
  ]

  taken-IsMatched :
      (i : ℕ) (m : Matcher D)
      → IsMatched id m
      → IsMatched id (record m { inflight = remove i m.inflight })
  taken-IsMatched i m good = record {
    each = λ j token e. taken-IsFor id i j token m (good.each j token e);
    ahead_free = good.ahead_free;
    ahead_unasked = λ j token le e. elim (Bool-cases (i == j)) [
      | inl same ↦ absurd (cc (rw (same) at (sym (get-remove j i m.inflight) ∙ e)))
      | inr other ↦
          good.ahead_unasked j token le (rw (other) at (sym (get-remove j i m.inflight) ∙ e))
    ];
    ahead_open = good.ahead_open;
  }

  handed-IsMatched :
      (msg : D) (t : ℕ) (m : Matcher D)
      → get (id msg) m.inflight ≡ some t
      → IsMatched id m
      → IsMatched id
          (record m { inflight = remove (id msg) m.inflight; values = insert t msg m.values })
  handed-IsMatched msg t m is good = record {
    each = λ i token e. handed-IsFor id msg t i token m is (good.each i token e);
    ahead_free = λ token le. elim (Bool-cases (t == token)) [
      | inl same ↦
          absurd (good.ahead_unasked (id msg) token le (is ∙ ap some ((==_iff t token).0 same)))
      | inr other ↦ rw (other) at (get-insert token t msg m.values) ∙ good.ahead_free token le
    ];
    ahead_unasked = (taken-IsMatched (id msg) m good).ahead_unasked;
    ahead_open = good.ahead_open;
  }

  hand_over-IsMatched :
      (msg : D) (o : Option ℕ) (m : Matcher D)
      → get (id msg) m.inflight ≡ o
      → IsMatched id m
      → Still id (IsMatched id) (hand_over id msg o m)
  hand_over-IsMatched msg none m is good = good
  hand_over-IsMatched msg (some t) m is good = elim (Bool-cases (set_contains m.closed t)) [
    | inl gone ↦ rw gone (taken-IsMatched (id msg) m good)
    | inr lives ↦ rw lives (handed-IsMatched msg t m is good)
  ]

  hand_slots-IsMatched :
      (n : ℕ) (slots : List (Option D)) (m : Matcher D)
      → IsMatched id m
      → Still id (IsMatched id) (hand_slots id n slots m)
  unfolding hand_slots
  hand_slots-IsMatched zero slots m good = good
  hand_slots-IsMatched (suc n) [] m good = good
  hand_slots-IsMatched (suc n) (none ∷ slots) m good = hand_slots-IsMatched n slots m good
  hand_slots-IsMatched (suc n) (some d ∷ slots) m good =
      and_more-Still id (IsMatched id) (hand_over id d (get (id d) m.inflight) m)
        (hand_slots id n slots) (hand_over-IsMatched d (get (id d) m.inflight) m refl good)
        (hand_slots-IsMatched n slots)

  moved-IsFor :
      (i token : ℕ) (m m' : Matcher D)
      → m.inflight ≡ m'.inflight
      → m.values ≡ m'.values
      → m.next ≡ m'.next
      → IsFor id i token m
      → IsFor id i token m'
  moved-IsFor i token m m' inflight values next k = record {
    given = subst (λ n. token < n) next k.given;
    asked = λ j e. k.asked j (ap (get j) inflight ∙ e);
    got = λ d e. k.got d (ap (get token) values ∙ e);
  }

  elapse-IsMatched :
      (e : Elsewhere D) (m : Matcher D) → IsMatched id m → IsMatched id (elapse id e m)
  elapse-IsMatched (sends d) m good = register-IsMatched d m good
  elapse-IsMatched (starts i) m good = record {
    each = λ j token e. elim (Bool-cases (i == j)) [
      | inl same ↦ absurd (cc (rw (same) at (sym (get-remove j i m.sent) ∙ e)))
      | inr other ↦
          moved-IsFor j token m _ refl refl refl
            (good.each j token (rw (other) at (sym (get-remove j i m.sent) ∙ e)))
    ];
    ahead_free = good.ahead_free;
    ahead_unasked = good.ahead_unasked;
    ahead_open = good.ahead_open;
  }
  elapse-IsMatched (receives slots) m good =
      after_handed-Still id (IsMatched id) (hand_slots id 4 slots m)
        (hand_slots-IsMatched 4 slots m good)
  elapse-IsMatched (leaves t) m good = elim (Bool-cases (ltb t m.next)) [
    | inl held ↦ rw held (record {
      each = λ j token e. moved-IsFor j token m _ refl refl refl (good.each j token e);
      ahead_free = good.ahead_free;
      ahead_unasked = good.ahead_unasked;
      ahead_open = λ token le. let open_yet = good.ahead_open token le in ground arith;
    })
    | inr free ↦ rw free good
  ]

  elapsed-IsMatched :
      (past : List (Elsewhere D)) (m : Matcher D)
      → IsMatched id m
      → IsMatched id (elapsed id past m)
  unfolding elapsed
  elapsed-IsMatched [] m good = good
  elapsed-IsMatched (e ∷ past) m good =
      elapsed-IsMatched past (elapse id e m) (elapse-IsMatched e m good)

  known-Answers :
      (msg_id : ℕ) (o : Option ℕ) (events : List (MatchEvent D)) (m : Matcher D)
      → get msg_id m.sent ≡ o
      → IsMatched id m
      → Answers id msg_id (wait_known id msg_id o events m)
  known-Answers msg_id none events m e good = tt
  known-Answers msg_id (some token) events m e good =
      wait-Answers id msg_id token events _
        (moved-IsFor msg_id token m _ refl refl refl (good.each msg_id token e))

  -- Whatever has been sent, received and waited for before, and whatever happens during the call, in any
  -- order: the message that `recv_msg` returns has the id that was asked for.
  pub recv_msg-Answers :
      (past : List (Elsewhere D)) (msg_id : ℕ) (events : List (MatchEvent D)) (d : D)
      (m : Matcher D)
      → recv_msg id msg_id events (elapsed id past new_matcher) ≡ returned (returns (ok d)) m
      → id d ≡ msg_id
  unfolding recv_msg
  recv_msg-Answers past msg_id events d m e =
      let start = elapsed id past new_matcher in
      subst (Answers id msg_id) e (
        known-Answers msg_id (get msg_id start.sent) events start refl
          (elapsed-IsMatched past new_matcher new-IsMatched))

  -- The state in which the answer to the message that has just been registered is there.
  abbrev pub answered : D → D → Matcher D → Matcher D
  answered msg answer m = record {
    inflight = remove (id answer) (insert (id msg) m.next m.inflight);
    sent = remove (id msg) (insert (id msg) m.next m.sent);
    values = insert m.next answer m.values;
    dropped = replaced (get (id msg) m.inflight) m.dropped;
    closed = m.closed;
    next = suc m.next;
  }

  -- Whatever has happened before: where no channel of the id is left, a message that is sent, whatever the
  -- connection makes of it, and answered by a message with its id, in the first of four slots, leads
  -- `recv_msg` to the answer.
  pub recv_msg-send_msg :
      {W : Type 0} (send : D → W → Outcome (Unit {0}) × W) (past : List (Elsewhere D))
      (msg answer : D) (events : List (MatchEvent D)) (w : W)
      → contains_key (id msg) (elapsed id past new_matcher).sent ≡ false
      → id answer ≡ id msg
      → let m = elapsed id past new_matcher in
        recv_msg id
          (id msg)
          (received (some answer ∷ none ∷ none ∷ none ∷ []) ∷ polled ∷ events)
          (send_msg id send msg (m, w)).1.0
        ≡ returned (returns (ok answer)) (answered msg answer m)
  unfolding recv_msg send_msg register_msg wait_msg hand_slots
  recv_msg-send_msg send past msg answer events w new same =
      let m = elapsed id past new_matcher in
      let open_yet =
        (elapsed-IsMatched past new_matcher new-IsMatched).ahead_open m.next (omega (arith)) in
      let asked =
        subst (λ i. get i (insert (id msg) m.next m.inflight) ≡ some m.next) (sym same)
          (get-insert (id msg) (id msg) m.next m.inflight
            ∙ ap (λ b. if b then some m.next else get (id msg) m.inflight) (==_self (id msg))) in
      rw (
        new,
        get-insert (id msg) (id msg) m.next m.sent,
        ==_self (id msg),
        asked,
        open_yet,
        get-insert m.next m.next answer m.values,
        ==_self m.next,
      )
