-- ===== src/Redis/Turns.antt =====
-- The steps of a commit: the lock, the staging, the acknowledgements and the clean-up.
use tbm.Prelude.{
  ℕ, ◌%◌, ◌≡◌, ◌<◌, ap, ◌∙◌, sym, true, none, some, Bytes, inl, inr, arith, some-injective,
}
use tbm.Redis.Store.{round_ctr, staged, committed_cnt, number, Commands, Laws}
use tbm.Redis.Frames.{Locks}
use tbm.Redis.Rounds.{locked, has_staged, follows, System, set_role, commits, IsClean, role-cases}
use tbm.Redis.Quiet.{number-injective, committer_round}

module _ {R : Type 0} (db : Commands R) (laws : Laws db) where
  -- Somebody commits only in the round of the counter.
  no_committer :
      (s : System R) (m : ℕ) (j : ℕ)
      → IsClean db s
      → db.get round_ctr s.store ≡ some (number m)
      → m % 2 ≡ 0
      → commits (s.roles j) ≡ true
      → ⊥
  no_committer s m j k was even e =
      let (n, named, odd) = committer_round db laws s j k e in
      let same = number-injective m n (sym was ∙ named) in omega (arith, same, odd, even)

  pub locking-IsClean :
      (s : System R) (i : ℕ) (nonce : Bytes) (r : ℕ) (store : R)
      → Locks db laws r s.store store
      → IsClean db s
      → IsClean db (record { store = store; roles = set_role i (locked nonce r) s.roles })
  locking-IsClean s i nonce r store l k = record {
    counter = λ v e. (r, some-injective (sym e ∙ l.now));
    locked_clean = λ j nonce' r' e. elim (role-cases (λ q. q ≡ locked nonce' r') i j _ s.roles e) [
      | inl (_, here) ↦
          let same : r ≡ r' = cc here in
          let (a, b) = clean r (omega (arith, l.next)) in
          (
            l.now ∙ ap (λ x. some (number x)) same,
            omega (arith, same, l.next, l.even),
            ap (λ x. db.get (staged x) store) (sym same) ∙ a,
            ap (λ x. db.get (committed_cnt x) store) (sym same) ∙ b,
          )
      | inr (_, old) ↦ absurd (nobody j (ap commits old))
    ];
    staged_clean = λ j nonce' r' e.
        elim (role-cases (λ q. q ≡ has_staged nonce' r') i j _ s.roles e) [
          | inl (_, here) ↦ absurd (cc here)
          | inr (_, old) ↦ absurd (nobody j (ap commits old))
        ];
    one_commits = λ j j' e e'. sym (is_i j e) ∙ is_i j' e';
    followed = λ j r' e. elim (role-cases (λ q. q ≡ follows r') i j _ s.roles e) [
      | inl (_, here) ↦ absurd (cc here)
      | inr (_, old) ↦
          let (n, named, where_it_is) = k.followed j r' old in
          let same = number-injective l.before n (sym l.was ∙ named) in
          elim where_it_is [
            | inl less ↦ (r, l.now, inl (omega (arith, same, less, l.next)))
            | inr (at, _, _) ↦ (r, l.now, inl (omega (arith, same, at, l.next)))
          ]
    ];
    ahead = λ n r' e less.
        let same = number-injective n r (sym e ∙ l.now) in
        clean r' (omega (arith, same, less, l.next));
    unset = λ r' e. absurd (cc (sym e ∙ l.now));
  }
    where
      clean :
          (r' : ℕ)
          → l.before < r'
          → (db.get (staged r') store ≡ none) × (db.get (committed_cnt r') store ≡ none)
      clean r' less =
          let (a, b) = k.ahead l.before r' l.was less in
          (
            l.else_same (staged r') (λ e. cc e) (λ e. cc e) (λ e. cc e) ∙ a,
            l.else_same (committed_cnt r') (λ e. cc e) (λ e. cc e) (λ e. cc e) ∙ b,
          )

      nobody : (j : ℕ) → commits (s.roles j) ≡ true → ⊥
      nobody j e = no_committer s l.before j k l.was l.even e

      is_i : (j : ℕ) → commits (set_role i (locked nonce r) s.roles j) ≡ true → i ≡ j
      is_i j e = elim (role-cases (λ q. commits q ≡ true) i j _ s.roles e) [
        | inl (same, _) ↦ same
        | inr (_, old) ↦ absurd (nobody j old)
      ]
