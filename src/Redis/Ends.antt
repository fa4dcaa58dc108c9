-- ===== src/Redis/Ends.antt =====
-- The steps of a commit after its lock: the staging, the acknowledgements and the clean-up; and the creation
-- of the counter.
use tbm.Prelude.{
  ℕ, suc, ◌≡◌, ◌≢◌, ap, ◌∙◌, sym, Bool, true, some, Bytes, inl, inr, arith, some-injective,
}
use tbm.Redis.Store.{round_ctr, staged, committed_cnt, number, bytes, Commands, Laws}
use tbm.Redis.Frames.{staged_ne, committed_cnt_ne}
use tbm.Redis.Pipes.{Stages, Cleans}
use tbm.Redis.Rounds.{
  idle, locked, has_staged, follows, System, set_role, commits, IsClean, role-cases,
}
use tbm.Redis.Quiet.{number-injective}

module _ {R : Type 0} (db : Commands R) (laws : Laws db) where
  pub staging-IsClean :
      (s : System R) (i : ℕ) (nonce : Bytes) (r : ℕ) (store : R) (reply : Bool × Bool × ℕ)
      → s.roles i ≡ locked nonce r
      → Stages db laws reply r nonce s.store store
      → IsClean db s
      → IsClean db (record { store = store; roles = set_role i (has_staged nonce r) s.roles })
  staging-IsClean s i nonce r store reply is l k =
      let (named, odd, no_staged, no_count) = k.locked_clean i nonce r is in
      let round : db.get round_ctr store ≡ db.get round_ctr s.store =
        l.else_same round_ctr (λ e. cc e) (λ e. cc e) in
      record {
        counter = λ v e. k.counter v (sym round ∙ e);
        locked_clean = λ j nonce' r' e.
            elim (role-cases (λ q. q ≡ locked nonce' r') i j _ s.roles e) [
              | inl (_, here) ↦ absurd (cc here)
              | inr (other, old) ↦ absurd (other (only j (ap commits old)))
            ];
        staged_clean = λ j nonce' r' e.
            elim (role-cases (λ q. q ≡ has_staged nonce' r') i j _ s.roles e) [
              | inl (_, here) ↦
                  let same : r ≡ r' = cc here in
                  let same_nonce : nonce ≡ nonce' = cc here in
                  (
                    round ∙ named ∙ ap (λ x. some (number x)) same,
                    omega (arith, same, odd),
                    ap (λ x. db.get (staged x) store) (sym same)
                        ∙ l.now
                        ∙ ap (λ x. some (bytes x)) same_nonce,
                  )
              | inr (other, old) ↦ absurd (other (only j (ap commits old)))
            ];
        one_commits = λ j j' e e'. sym (only j (back j e)) ∙ only j' (back j' e');
        followed = λ j r' e. elim (role-cases (λ q. q ≡ follows r') i j _ s.roles e) [
          | inl (_, here) ↦ absurd (cc here)
          | inr (_, old) ↦
              let (n, at_n, where_it_is) = k.followed j r' old in
              elim where_it_is [
                | inl less ↦ (n, round ∙ at_n, inl less)
                | inr (at, v, there) ↦
                    let same = number-injective r n (sym named ∙ at_n) in
                    absurd (
                      cc (
                        sym (ap (λ x. db.get (staged x) s.store) (at ∙ sym same) ∙ no_staged)
                        ∙ there))
              ]
        ];
        ahead = λ n r' e less.
            let same = number-injective n r (sym e ∙ round ∙ named) in
            let differs : r' ≢ r = λ q. omega (arith, q, same, less) in
            let (a, b) = k.ahead r r' named (omega (arith, same, less)) in
            (
              l.else_same (staged r') (staged_ne r' r differs) (λ q. cc q) ∙ a,
              l.else_same (committed_cnt r') (λ q. cc q) (committed_cnt_ne r' r differs) ∙ b,
            );
        unset = λ r' e. absurd (cc (sym e ∙ round ∙ named));
      }
    where
      only : (j : ℕ) → commits (s.roles j) ≡ true → i ≡ j
      only j e = k.one_commits i j (ap commits is) e

      back :
          (j : ℕ)
          → commits (set_role i (has_staged nonce r) s.roles j) ≡ true
          → commits (s.roles j) ≡ true
      back j e = elim (role-cases (λ q. commits q ≡ true) i j _ s.roles e) [
        | inl (same, _) ↦ ap (λ x. commits (s.roles x)) (sym same) ∙ ap commits is
        | inr (_, old) ↦ old
      ]

  pub cleaning-IsClean :
      (s : System R) (i : ℕ) (nonce : Bytes) (r : ℕ) (store : R) (reply : ℕ)
      → s.roles i ≡ has_staged nonce r
      → Cleans db laws reply r s.store store
      → IsClean db s
      → IsClean db (record { store = store; roles = set_role i idle s.roles })
  cleaning-IsClean s i nonce r store reply is l k =
      let (named, odd, _) = k.staged_clean i nonce r is in
      record {
        counter = λ v e. (suc r, some-injective (sym e ∙ l.now));
        locked_clean = λ j nonce' r' e.
            elim (role-cases (λ q. q ≡ locked nonce' r') i j _ s.roles e) [
              | inl (_, here) ↦ absurd (cc here)
              | inr (other, old) ↦ absurd (other (only j (ap commits old)))
            ];
        staged_clean = λ j nonce' r' e.
            elim (role-cases (λ q. q ≡ has_staged nonce' r') i j _ s.roles e) [
              | inl (_, here) ↦ absurd (cc here)
              | inr (other, old) ↦ absurd (other (only j (ap commits old)))
            ];
        one_commits = λ j j' e e'. absurd (nobody j e);
        followed = λ j r' e. elim (role-cases (λ q. q ≡ follows r') i j _ s.roles e) [
          | inl (_, here) ↦ absurd (cc here)
          | inr (_, old) ↦
              let (n, at_n, where_it_is) = k.followed j r' old in
              let same = number-injective r n (sym named ∙ at_n) in
              elim where_it_is [
                | inl less ↦ (suc r, l.now, inl (omega (arith, same, less)))
                | inr (at, _, _) ↦ (suc r, l.now, inl (omega (arith, same, at)))
              ]
        ];
        ahead = λ n r' e less.
            let same = number-injective n (suc r) (sym e ∙ l.now) in
            let differs : r' ≢ r = λ q. omega (arith, q, same, less) in
            let (a, b) = k.ahead r r' named (omega (arith, same, less)) in
            (
              l.else_same (staged r') (λ q. cc q) (λ q. cc q) (staged_ne r' r differs) (λ q. cc q)
                  ∙ a,
              l.else_same (committed_cnt r') (λ q. cc q) (λ q. cc q) (λ q. cc q)
                    (committed_cnt_ne r' r differs)
                  ∙ b,
            );
        unset = λ r' e. absurd (cc (sym e ∙ l.now));
      }
    where
      only : (j : ℕ) → commits (s.roles j) ≡ true → i ≡ j
      only j e = k.one_commits i j (ap commits is) e

      nobody : (j : ℕ) → commits (set_role i idle s.roles j) ≡ true → ⊥
      nobody j e = elim (role-cases (λ q. commits q ≡ true) i j _ s.roles e) [
        | inl (_, here) ↦ absurd (cc here)
        | inr (other, old) ↦ other (only j old)
      ]
