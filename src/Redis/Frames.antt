-- ===== src/Redis/Frames.antt =====
-- What the scripts and pipes change of the keys of a commit.
use tbm.Prelude.{
  ℕ, suc, ◌==◌, ◌%◌, ◌≡◌, ◌≢◌, refl, ap, ◌∙◌, sym, Bool, true, false, Option, none, some, Bytes,
  Result, ok, ok-injective, ◌⊎◌, inl, inr, Bool-cases, ==_iff,
}
use tbm.Redis.Store.{
  Key, entry, round_ctr, join_lock, staged, committed_cnt, Value, number, bytes, Commands, Laws,
}
use tbm.Redis.Scripts.{
  Client, poll_entry_script, transition_script, expire, stay, unlock, has_name, lock_round,
  as_number, as_bytes,
}

pub staged_ne : (r s : ℕ) → r ≢ s → staged r ≢ staged s
staged_ne r s h e = h (cc e)

pub committed_cnt_ne : (r s : ℕ) → r ≢ s → committed_cnt r ≢ committed_cnt s
committed_cnt_ne r s h e = h (cc e)

pub as_number-some : (o : Option Value) (n : ℕ) → as_number o ≡ some n → o ≡ some (number n)
as_number-some none n e = absurd (cc e)
as_number-some (some (number m)) n e = cc e
as_number-some (some (bytes b)) n e = absurd (cc e)

pub as_bytes-some : (o : Option Value) (b : Bytes) → as_bytes o ≡ some b → o ≡ some (bytes b)
as_bytes-some none b e = absurd (cc e)
as_bytes-some (some (number m)) b e = absurd (cc e)
as_bytes-some (some (bytes b')) b e = cc e

reply_parts :
    {R : Type 0} {a a' : Bool} {n n' : ℕ} {r r' : R}
    → ◌≡◌ {A = Result (Bool × ℕ) × R} (ok (a, n), r) (ok (a', n'), r')
    → (a ≡ a') × (n ≡ n') × (r ≡ r')
reply_parts e =
    let inner = ok-injective _ _ (ap (λ p. p.0) e) in
    (ap (λ p. p.0) inner, ap (λ p. p.1) inner, ap (λ p. p.1) e)

module _ {R : Type 0} (db : Commands R) (laws : Laws db) where
  -- The keys of a commit are all but the entry and the join lock.
  abbrev pub SameKeys : R → R → Type 0
  SameKeys r r' = (j : Key) → j ≢ entry → j ≢ join_lock → db.get j r' ≡ db.get j r

  pub stay-get : (j : Key) (c : Client) (r : R) → db.get j (stay db c (expire db c r)) ≡ db.get j r
  stay-get j c r =
      laws.zadd_get j c.name c.insert_time (expire db c r)
      ∙ laws.zrembyscore_get j 0 c.expiry_time r

  pub unlock-SameKeys : (c : Client) (r : R) → SameKeys r (unlock db c r)
  unlock-SameKeys c r j not_entry not_lock =
      elim (Bool-cases (has_name (db.get join_lock r) c.name)) [
        | inl own ↦ rw own (laws.del_else j join_lock r not_lock)
        | inr other ↦ rw other refl
      ]

  pub poll-SameKeys : (c : Client) (r : R) → SameKeys r (poll_entry_script db c r).1
  unfolding poll_entry_script
  poll-SameKeys c r j not_entry not_lock =
      laws.zadd_get j c.name c.insert_time _
      ∙ unlock-SameKeys c (expire db c r) j not_entry not_lock
      ∙ laws.zrembyscore_get j 0 c.expiry_time r

  -- What transition.lua does where it takes the lock.
  pub record Locks (n : ℕ) (r r' : R) : Type 0 where
    pub before : ℕ
    pub was : db.get round_ctr r ≡ some (number before)
    pub even : before % 2 ≡ 0
    pub next : n ≡ suc before
    pub now : db.get round_ctr r' ≡ some (number n)
    pub else_same : (j : Key) → j ≢ entry → j ≢ join_lock → j ≢ round_ctr → db.get j r' ≡ db.get j r

  lock_round-cases :
      (o : Option ℕ) (mid : R) (locked : Bool) (n : ℕ) (r' : R)
      → lock_round db o mid ≡ (ok (locked, n), r')
      → ((locked ≡ true)
          × (m : ℕ) × (o ≡ some m)
          × (m % 2 ≡ 0)
          × (n ≡ (db.incr round_ctr mid).0)
          × (r' ≡ (db.incr round_ctr mid).1))
        ⊎ ((locked ≡ false) × (r' ≡ mid))
  lock_round-cases none mid locked n r' e = absurd (cc e)
  lock_round-cases (some m) mid locked n r' e = elim (Bool-cases (m % 2 == 0)) [
    | inl even ↦
        let (a, b, c) = reply_parts (rw even at e) in
        inl (sym a, m, refl, (==_iff (m % 2) 0).0 even, sym b, sym c)
    | inr odd ↦ let (a, b, c) = reply_parts (rw odd at e) in inr (sym a, sym c)
  ]

  -- A transition.lua that takes the lock, and one that finds it taken.
  pub transition-Locks :
      (c : Client) (n : ℕ) (r r' : R) → transition_script db c r ≡ (ok (true, n), r') → Locks n r r'
  unfolding transition_script
  transition-Locks c n r r' e =
      let mid = unlock db c r in
      let same = unlock-SameKeys c r in
      elim (lock_round-cases (as_number (db.get round_ctr mid)) mid true n r' e) [
        | inr (no_lock, _) ↦ absurd (cc no_lock)
        | inl (_, m, found, even, round, state) ↦
            let was_mid = as_number-some (db.get round_ctr mid) m found in
            let counted = laws.incr_here round_ctr m mid was_mid in
            record {
              before = m;
              was = sym (same round_ctr (λ e. cc e) (λ e. cc e)) ∙ was_mid;
              even = even;
              next = round ∙ counted.0;
              now =
                  ap (db.get round_ctr) state
                  ∙ counted.1
                  ∙ ap (λ k. some (number k)) (sym (round ∙ counted.0));
              else_same = λ j not_entry not_lock not_round.
                  ap (db.get j) state
                  ∙ laws.incr_else j round_ctr mid not_round
                  ∙ same j not_entry not_lock;
            }
      ]

  pub transition-SameKeys :
      (c : Client) (n : ℕ) (r r' : R)
      → transition_script db c r ≡ (ok (false, n), r')
      → SameKeys r r'
  unfolding transition_script
  transition-SameKeys c n r r' e j not_entry not_lock =
      let mid = unlock db c r in
      elim (lock_round-cases (as_number (db.get round_ctr mid)) mid false n r' e) [
        | inl lock ↦ absurd (cc lock.0)
        | inr (_, state) ↦ ap (db.get j) state ∙ unlock-SameKeys c r j not_entry not_lock
      ]
