-- ===== src/Redis/Quiet.antt =====
-- Steps that leave the keys of a commit alone, or only change who follows.
use tbm.Prelude.{ℕ, ◌%◌, ◌≡◌, ◌<◌, ap, ◌∙◌, sym, true, false, Option, some, ◌⊎◌, inl, inr}
use tbm.Redis.Store.{round_ctr, staged, committed_cnt, Value, number, Commands, Laws}
use tbm.Redis.Frames.{SameKeys}
use tbm.Redis.Rounds.{
  Role, locked, has_staged, follows, System, set_role, commits, IsClean, role-cases, commits-cases,
}

pub number-injective :
    (m n : ℕ) → ◌≡◌ {A = Option Value} (some (number m)) (some (number n)) → m ≡ n
number-injective m n e = cc e

module _ {R : Type 0} (db : Commands R) (laws : Laws db) where
  -- What is asked of a client that follows the round `r`.
  abbrev pub IsBehind : R → ℕ → Type 0
  IsBehind store r =
      (n : ℕ) × (db.get round_ctr store ≡ some (number n))
      × ((r < n) ⊎ ((r ≡ n) × (v : Value) × (db.get (staged r) store ≡ some v)))

  pub quiet-IsClean :
      (s : System R) (store : R)
      → SameKeys db laws s.store store
      → IsClean db s
      → IsClean db (record s { store = store })
  quiet-IsClean s store same k =
      let round = same round_ctr (λ e. cc e) (λ e. cc e) in
      let stage_same : (r : ℕ) → db.get (staged r) store ≡ db.get (staged r) s.store =
        λ r. same (staged r) (λ e. cc e) (λ e. cc e) in
      let count_same : (r : ℕ) → db.get (committed_cnt r) store ≡ db.get (committed_cnt r) s.store =
        λ r. same (committed_cnt r) (λ e. cc e) (λ e. cc e) in
      record {
        counter = λ v e. k.counter v (sym round ∙ e);
        locked_clean = λ i nonce r e.
            let (a, b, c, d) = k.locked_clean i nonce r e in
            (round ∙ a, b, stage_same r ∙ c, count_same r ∙ d);
        staged_clean = λ i nonce r e.
            let (a, b, c) = k.staged_clean i nonce r e in (round ∙ a, b, stage_same r ∙ c);
        one_commits = k.one_commits;
        followed = λ i r e.
            let (n, a, where_it_is) = k.followed i r e in
            elim where_it_is [
              | inl less ↦ (n, round ∙ a, inl less)
              | inr (at, v, b) ↦ (n, round ∙ a, inr (at, v, stage_same r ∙ b))
            ];
        ahead = λ n r e less.
            let (a, b) = k.ahead n r (sym round ∙ e) less in (stage_same r ∙ a, count_same r ∙ b);
        unset =
            λ r e. let (a, b) = k.unset r (sym round ∙ e) in (stage_same r ∙ a, count_same r ∙ b);
      }

  -- A client becomes one that does not commit, and follows at most the round of the counter.
  pub recast-IsClean :
      (s : System R) (i : ℕ) (p : Role)
      → commits p ≡ false
      → ((r : ℕ) → p ≡ follows r → IsBehind s.store r)
      → IsClean db s
      → IsClean db (record s { roles = set_role i p s.roles })
  recast-IsClean s i p calm behind k = record {
    counter = k.counter;
    locked_clean = λ j nonce r e. elim (role-cases (λ q. q ≡ locked nonce r) i j p s.roles e) [
      | inl (_, here) ↦ absurd (cc (sym calm ∙ ap commits here))
      | inr (_, old) ↦ k.locked_clean j nonce r old
    ];
    staged_clean = λ j nonce r e. elim (role-cases (λ q. q ≡ has_staged nonce r) i j p s.roles e) [
      | inl (_, here) ↦ absurd (cc (sym calm ∙ ap commits here))
      | inr (_, old) ↦ k.staged_clean j nonce r old
    ];
    one_commits = λ j j' e e'. k.one_commits j j' (old j e) (old j' e');
    followed = λ j r e. elim (role-cases (λ q. q ≡ follows r) i j p s.roles e) [
      | inl (_, here) ↦ behind r here
      | inr (_, old) ↦ k.followed j r old
    ];
    ahead = k.ahead;
    unset = k.unset;
  }
    where
      old : (j : ℕ) → commits (set_role i p s.roles j) ≡ true → commits (s.roles j) ≡ true
      old j e = elim (role-cases (λ q. commits q ≡ true) i j p s.roles e) [
        | inl (_, here) ↦ absurd (cc (sym calm ∙ here))
        | inr (_, there) ↦ there
      ]

  -- The counter names the round of whoever commits, and the round is odd.
  pub committer_round :
      (s : System R) (i : ℕ)
      → IsClean db s
      → commits (s.roles i) ≡ true
      → (n : ℕ) × (db.get round_ctr s.store ≡ some (number n)) × (n % 2 ≡ 1)
  committer_round s i k e = elim (commits-cases (s.roles i) e) [
    | inl (nonce, r, is) ↦ let (a, b, _, _) = k.locked_clean i nonce r is in (r, a, b)
    | inr (nonce, r, is) ↦ let (a, b, _) = k.staged_clean i nonce r is in (r, a, b)
  ]
