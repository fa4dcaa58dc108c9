-- ===== src/Redis/Mutual.antt =====
-- What the ensures of `transition` rely on: one committer at a time, and nothing staged before it.
use tbm.Prelude.{
  ℕ, ◌%◌, ◌≡◌, refl, ap, ◌∙◌, sym, true, none, some, inl, inr, arith, Option-cases, Bool-cases, ltb,
  ltb→lt,
}
use tbm.Redis.Store.{
  Key, entry, round_ctr, join_lock, staged, committed_cnt, Value, number, bytes, Commands, Laws,
}
use tbm.Redis.Scripts.{Client, stage, clean_up, read_staged, as_bytes}
use tbm.Redis.Frames.{transition-Locks, transition-SameKeys, poll-SameKeys, as_bytes-some}
use tbm.Redis.Pipes.{
  stage-Stages, clean_up-Cleans, acknowledge-same, read_staged-SameKeys, read_committed-SameKeys,
  try_init-cases,
}
use tbm.Redis.Rounds.{Role, idle, locked, has_staged, follows, System, commits, Step, IsClean}
use tbm.Redis.Quiet.{quiet-IsClean, recast-IsClean, IsBehind}
use tbm.Redis.Turns.{locking-IsClean}
use tbm.Redis.Ends.{staging-IsClean, cleaning-IsClean}
use tbm.Redis.Acks.{acks-IsClean, creation-IsClean}

module _ {R : Type 0} (db : Commands R) where
  pub data Steps : System R → System R → Type 0 where
    start : (s : System R) → Steps s s
    next : (a b c : System R) → Steps a b → Step db b c → Steps a c

  -- An address that nobody has used, and clients that do nothing yet.
  pub record IsUnused (s : System R) : Type 0 where
    pub no_keys : (j : Key) → db.get j s.store ≡ none
    pub all_idle : (i : ℕ) → s.roles i ≡ idle

module _ {R : Type 0} (db : Commands R) (laws : Laws db) where
  unused-IsClean : (s : System R) → IsUnused db s → IsClean db s
  unused-IsClean s u = record {
    counter = λ v e. absurd (cc (sym (u.no_keys round_ctr) ∙ e));
    locked_clean = λ i nonce r e. absurd (cc (sym (u.all_idle i) ∙ e));
    staged_clean = λ i nonce r e. absurd (cc (sym (u.all_idle i) ∙ e));
    one_commits = λ i j e e'. absurd (cc (sym (ap commits (u.all_idle i)) ∙ e));
    followed = λ i r e. absurd (cc (sym (u.all_idle i) ∙ e));
    ahead = λ n r e less. absurd (cc (sym (u.no_keys round_ctr) ∙ e));
    unset = λ r e. (u.no_keys (staged r), u.no_keys (committed_cnt r));
  }

  -- A staged value stands in the round of the counter, or one before it.
  seen-IsBehind :
      (s : System R) (r : ℕ) (v : Value)
      → IsClean db s
      → db.get (staged r) s.store ≡ some v
      → IsBehind db laws s.store r
  seen-IsBehind s r v k there = elim (Option-cases (db.get round_ctr s.store)) [
    | inl unset ↦ absurd (cc (sym (k.unset r unset).0 ∙ there))
    | inr (w, found) ↦
        let (n, is) = k.counter w found in
        let named : db.get round_ctr s.store ≡ some (number n) = found ∙ ap some is in
        elim (Bool-cases (ltb r n)) [
          | inl less ↦ (n, named, inl (ltb→lt r n less))
          | inr not_less ↦ elim (Bool-cases (ltb n r)) [
            | inl more ↦ absurd (cc (sym (k.ahead n r named (ltb→lt n r more)).0 ∙ there))
            | inr not_more ↦ (n, named, inr (ground arith, v, there))
          ]
        ]
  ]

  read_staged-value :
      (c : Client) (r : ℕ) (store : R)
      → as_bytes (db.get (staged r) store) ≡ (read_staged db c r store).0.0
  unfolding read_staged
  read_staged-value c r store = refl

  follows-injective : (r s : ℕ) → follows r ≡ follows s → r ≡ s
  follows-injective r s e = cc e

  step-IsClean : (a b : System R) → Step db a b → IsClean db a → IsClean db b
  step-IsClean a b (Step.locks s i c nonce r store is e) k =
      locking-IsClean db laws a i nonce r store (transition-Locks db laws c r a.store store e) k
  step-IsClean a b (Step.converts s c r store e) k =
      quiet-IsClean db laws a store (transition-SameKeys db laws c r a.store store e) k
  step-IsClean a b (Step.stages s i c nonce r is) k =
      let (_, _, no_staged, no_count) = k.locked_clean i nonce r is in
      staging-IsClean db laws a i nonce r _ _ is
        (stage-Stages db laws c r nonce a.store no_staged no_count) k
  step-IsClean a b (Step.cleans s i nonce r is) k =
      let (named, _, _) = k.staged_clean i nonce r is in
      cleaning-IsClean db laws a i nonce r _ _ is (clean_up-Cleans db laws r nonce a.store named) k
  step-IsClean a b (Step.sees s i c r v is read) k =
      let same = read_staged-SameKeys db laws c r a.store in
      let there =
        as_bytes-some (db.get (staged r) a.store) v (read_staged-value c r a.store ∙ read) in
      let quiet = quiet-IsClean db laws a _ same k in
      recast-IsClean db laws (record a { store = (read_staged db c r a.store).1 }) i (follows r)
        refl
        (λ r' e.
          seen-IsBehind (record a { store = (read_staged db c r a.store).1 }) r' (bytes v) quiet
            (ap (λ x. db.get (staged x) (read_staged db c r a.store).1)
                (follows-injective r' r (sym e))
              ∙ same (staged r) (λ q. cc q) (λ q. cc q)
              ∙ there))
        quiet
  step-IsClean a b (Step.acks s i c r is) k =
      recast-IsClean db laws (record a { store = _ }) i idle refl (λ r' e. absurd (cc e))
        (acks-IsClean db laws a i r _ is (acknowledge-same db laws c r a.store) k)
  step-IsClean a b (Step.gives_up s i r is) k =
      recast-IsClean db laws a i idle refl (λ r' e. absurd (cc e)) k
  step-IsClean a b (Step.inits s c offer) k = elim (try_init-cases db laws c offer a.store) [
    | inl same ↦ quiet-IsClean db laws a _ same k
    | inr created ↦ creation-IsClean db laws a _ created k
  ]
  step-IsClean a b (Step.polls s c) k =
      quiet-IsClean db laws a _ (poll-SameKeys db laws c a.store) k
  step-IsClean a b (Step.refreshes s c r) k =
      quiet-IsClean db laws a _ (read_committed-SameKeys db laws c r a.store) k
  step-IsClean a b (Step.leaves s name) k =
      quiet-IsClean db laws a _ (λ j _ _. laws.zrem_get j name a.store) k
  step-IsClean a b (Step.unlocks s) k =
      quiet-IsClean db laws a _ (λ j _ not_lock. laws.del_else j join_lock a.store not_lock) k

  run-IsClean : (a b : System R) → Steps db a b → IsClean db a → IsClean db b
  run-IsClean a b (Steps.start s) k = k
  run-IsClean a b (Steps.next s m t steps step) k = step-IsClean m b step (run-IsClean a m steps k)

  -- However the clients' scripts and pipes interleave, from an address that nobody has used, at most one
  -- client is the committer at a time.
  pub one_committer :
      (a b : System R) (i j : ℕ)
      → IsUnused db a
      → Steps db a b
      → commits (b.roles i) ≡ true
      → commits (b.roles j) ≡ true
      → i ≡ j
  one_committer a b i j unused steps e e' =
      (run-IsClean a b steps (unused-IsClean a unused)).one_commits i j e e'

  -- What a committer needs: its staging pipe sets both values; after it the value staged is its own, and
  -- its clean-up publishes it and leaves the counter even.
  abbrev pub Unpolluted : R → Role → Type 0
  Unpolluted store (locked nonce r) =
      (c : Client)
      → ((stage db c r nonce store).0.0 ≡ true) × ((stage db c r nonce store).0.1 ≡ true)
  Unpolluted store (has_staged nonce r) =
      (db.get (staged r) store ≡ some (bytes nonce))
      × (db.get entry (clean_up db r nonce store).1 ≡ some (bytes nonce))
      × ((clean_up db r nonce store).0 % 2 ≡ 0)
  Unpolluted store _ = Unit
