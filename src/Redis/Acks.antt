-- ===== src/Redis/Acks.antt =====
-- The acknowledgements of a commit, and the creation of the counter.
use tbm.Prelude.{ℕ, ◌≡◌, ◌≢◌, ap, ◌∙◌, sym, none, inl, inr, arith, some-injective}
use tbm.Redis.Store.{Key, round_ctr, staged, committed_cnt, Commands, Laws}
use tbm.Redis.Frames.{committed_cnt_ne}
use tbm.Redis.Pipes.{Creates}
use tbm.Redis.Rounds.{follows, System, IsClean}
use tbm.Redis.Quiet.{number-injective}

module _ {R : Type 0} (db : Commands R) (laws : Laws db) where
  -- Only a counter of acknowledgements changes, of a round that somebody follows.
  pub acks-IsClean :
      (s : System R) (i r : ℕ) (store : R)
      → s.roles i ≡ follows r
      → ((j : Key) → j ≢ committed_cnt r → db.get j store ≡ db.get j s.store)
      → IsClean db s
      → IsClean db (record s { store = store })
  acks-IsClean s i r store is same k =
      let round = same round_ctr (λ e. cc e) in
      let stage_same : (r' : ℕ) → db.get (staged r') store ≡ db.get (staged r') s.store =
        λ r'. same (staged r') (λ e. cc e) in
      let (n, named, behind) = k.followed i r is in
      record {
        counter = λ v e. k.counter v (sym round ∙ e);
        locked_clean = λ j nonce r' e.
            let (a, b, c, d) = k.locked_clean j nonce r' e in
            let at = number-injective n r' (sym named ∙ a) in
            let differs : r' ≢ r = λ q. elim behind [
              | inl less ↦ omega (arith, at, q, less)
              | inr (_, v, there) ↦ cc (sym c ∙ ap (λ x. db.get (staged x) s.store) q ∙ there)
            ] in
            (
              round ∙ a,
              b,
              stage_same r' ∙ c,
              same (committed_cnt r') (committed_cnt_ne r' r differs) ∙ d,
            );
        staged_clean = λ j nonce r' e.
            let (a, b, c) = k.staged_clean j nonce r' e in (round ∙ a, b, stage_same r' ∙ c);
        one_commits = k.one_commits;
        followed = λ j r' e.
            let (m, a, where_it_is) = k.followed j r' e in
            elim where_it_is [
              | inl less ↦ (m, round ∙ a, inl less)
              | inr (at, v, b) ↦ (m, round ∙ a, inr (at, v, stage_same r' ∙ b))
            ];
        ahead = λ m r' e less.
            let at = number-injective n m (sym named ∙ sym round ∙ e) in
            let differs : r' ≢ r = λ q. elim behind [
              | inl before ↦ omega (arith, at, q, less, before)
              | inr (here, _, _) ↦ omega (arith, at, q, less, here)
            ] in
            let (a, b) = k.ahead m r' (sym round ∙ e) less in
            (stage_same r' ∙ a, same (committed_cnt r') (committed_cnt_ne r' r differs) ∙ b);
        unset = λ r' e. absurd (cc (sym (sym round ∙ e) ∙ named));
      }

  pub creation-IsClean :
      (s : System R) (store : R)
      → Creates db laws s.store store
      → IsClean db s
      → IsClean db (record s { store = store })
  creation-IsClean s store l k =
      let clean : (r : ℕ)
          → (db.get (staged r) store ≡ none) × (db.get (committed_cnt r) store ≡ none) =
        λ r.
          let (a, b) = k.unset r l.was in
          (
            l.else_same (staged r) (λ e. cc e) (λ e. cc e) (λ e. cc e) ∙ a,
            l.else_same (committed_cnt r) (λ e. cc e) (λ e. cc e) (λ e. cc e) ∙ b,
          ) in
      record {
        counter = λ v e. (0, some-injective (sym e ∙ l.now));
        locked_clean = λ j nonce r e. absurd (cc (sym l.was ∙ (k.locked_clean j nonce r e).0));
        staged_clean = λ j nonce r e. absurd (cc (sym l.was ∙ (k.staged_clean j nonce r e).0));
        one_commits = k.one_commits;
        followed = λ j r e. absurd (cc (sym l.was ∙ (k.followed j r e).1));
        ahead = λ n r e less. clean r;
        unset = λ r e. clean r;
      }
