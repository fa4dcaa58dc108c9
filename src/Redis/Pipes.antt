-- ===== src/Redis/Pipes.antt =====
-- What the pipes of a commit, and tryinit.lua, change of the keys of a commit.
use tbm.Prelude.{
  ℕ, suc, ◌≡◌, ◌≢◌, refl, ap, ◌∙◌, sym, Bool, true, false, Option, none, some, Bytes, ◌⊎◌, inl, inr,
  Bool-cases, Option-cases,
}
use tbm.Redis.Store.{
  Key, entry, round_ctr, join_lock, staged, committed_cnt, Value, number, bytes, Commands, Laws,
}
use tbm.Redis.Scripts.{
  Client, try_init_script, stage, clean_up, acknowledge, read_staged, read_committed, expire,
  as_number, init_set, init_created, init_present, is_bytes,
}
use tbm.Redis.Frames.{SameKeys, stay-get}

is_round_ctr : (j : Key) → (j ≡ round_ctr) ⊎ (j ≢ round_ctr)
is_round_ctr entry = inr (λ e. cc e)
is_round_ctr round_ctr = inl refl
is_round_ctr join_lock = inr (λ e. cc e)
is_round_ctr (staged n) = inr (λ e. cc e)
is_round_ctr (committed_cnt n) = inr (λ e. cc e)

module _ {R : Type 0} (db : Commands R) (laws : Laws db) where
  -- A staging pipe, where nothing was staged for the round.
  pub record Stages (reply : Bool × Bool × ℕ) (round : ℕ) (nonce : Bytes) (r r' : R) : Type 0 where
    pub set_staged : reply.0 ≡ true
    pub set_commit_ctr : reply.1 ≡ true
    pub now : db.get (staged round) r' ≡ some (bytes nonce)
    pub else_same :
        (j : Key) → j ≢ staged round → j ≢ committed_cnt round → db.get j r' ≡ db.get j r

  pub stage-Stages :
      (c : Client) (round : ℕ) (nonce : Bytes) (r : R)
      → db.get (staged round) r ≡ none
      → db.get (committed_cnt round) r ≡ none
      → Stages (stage db c round nonce r).0 round nonce r (stage db c round nonce r).1
  unfolding stage
  stage-Stages c round nonce r no_staged no_count =
      let value = db.set_nx (staged round) (bytes nonce) r in
      let count = db.set_nx (committed_cnt round) (number 1) value.1 in
      let set_value = laws.set_nx_here (staged round) (bytes nonce) r no_staged in
      let still_none =
        laws.set_nx_else (committed_cnt round) (staged round) (bytes nonce) r (λ e. cc e) in
      let set_count =
        laws.set_nx_here (committed_cnt round) (number 1) value.1 (still_none ∙ no_count) in
      record {
        set_staged = set_value.0;
        set_commit_ctr = set_count.0;
        now =
            stay-get db laws (staged round) c count.1
            ∙ laws.set_nx_else (staged round) (committed_cnt round) (number 1) value.1 (λ e. cc e)
            ∙ set_value.1;
        else_same = λ j not_staged not_count.
            stay-get db laws j c count.1
            ∙ laws.set_nx_else j (committed_cnt round) (number 1) value.1 not_count
            ∙ laws.set_nx_else j (staged round) (bytes nonce) r not_staged;
      }

  -- The clean-up of a round, where the counter names it.
  pub record Cleans (reply round : ℕ) (r r' : R) : Type 0 where
    pub next : reply ≡ suc round
    pub now : db.get round_ctr r' ≡ some (number (suc round))
    pub no_staged : db.get (staged round) r' ≡ none
    pub no_count : db.get (committed_cnt round) r' ≡ none
    pub else_same :
        (j : Key)
        → j ≢ entry
        → j ≢ round_ctr
        → j ≢ staged round
        → j ≢ committed_cnt round
        → db.get j r' ≡ db.get j r

  pub clean_up-Cleans :
      (round : ℕ) (nonce : Bytes) (r : R)
      → db.get round_ctr r ≡ some (number round)
      → Cleans (clean_up db round nonce r).0 round r (clean_up db round nonce r).1
  unfolding clean_up
  clean_up-Cleans round nonce r named =
      let r₁ = db.set entry (bytes nonce) r in
      let r₂ = db.del (staged round) r₁ in
      let r₃ = db.del (committed_cnt round) r₂ in
      let still =
        laws.del_else round_ctr (committed_cnt round) r₂ (λ e. cc e)
        ∙ laws.del_else round_ctr (staged round) r₁ (λ e. cc e)
        ∙ laws.set_else round_ctr entry (bytes nonce) r (λ e. cc e)
        ∙ named in
      let counted = laws.incr_here round_ctr round r₃ still in
      record {
        next = counted.0;
        now = counted.1;
        no_staged =
            laws.incr_else (staged round) round_ctr r₃ (λ e. cc e)
            ∙ laws.del_else (staged round) (committed_cnt round) r₂ (λ e. cc e)
            ∙ laws.del_here (staged round) r₁;
        no_count =
            laws.incr_else (committed_cnt round) round_ctr r₃ (λ e. cc e)
            ∙ laws.del_here (committed_cnt round) r₂;
        else_same = λ j not_entry not_round not_staged not_count.
            laws.incr_else j round_ctr r₃ not_round
            ∙ laws.del_else j (committed_cnt round) r₂ not_count
            ∙ laws.del_else j (staged round) r₁ not_staged
            ∙ laws.set_else j entry (bytes nonce) r not_entry;
      }

  pub acknowledge-same :
      (c : Client) (round : ℕ) (r : R) (j : Key)
      → j ≢ committed_cnt round
      → db.get j (acknowledge db c round r).1 ≡ db.get j r
  unfolding acknowledge
  acknowledge-same c round r j not_count =
      stay-get db laws j c _ ∙ laws.incr_else j (committed_cnt round) r not_count

  pub read_staged-SameKeys :
      (c : Client) (round : ℕ) (r : R) → SameKeys db laws r (read_staged db c round r).1
  unfolding read_staged
  read_staged-SameKeys c round r j _ _ = stay-get db laws j c r

  pub read_committed-SameKeys :
      (c : Client) (round : ℕ) (r : R) → SameKeys db laws r (read_committed db c round r).1
  unfolding read_committed
  read_committed-SameKeys c round r j _ _ = stay-get db laws j c r

  -- tryinit.lua creates the counter or leaves the keys of a commit alone.
  pub record Creates (r r' : R) : Type 0 where
    pub was : db.get round_ctr r ≡ none
    pub now : db.get round_ctr r' ≡ some (number 0)
    pub else_same : (j : Key) → j ≢ entry → j ≢ join_lock → j ≢ round_ctr → db.get j r' ≡ db.get j r

  present-SameKeys :
      (c : Client) (offer : Bytes) (present : Option Value) (round : Option ℕ) (r : R)
      → SameKeys db laws r (init_present db c offer present round r).1
  present-SameKeys c offer present round r j not_entry not_lock =
      elim (Bool-cases (is_bytes present offer)) [
        | inl own ↦ rw own (laws.zadd_get j c.name c.insert_time r)
        | inr other ↦ rw other (laws.set_nx_ex_else j join_lock (number c.name) 3 r not_lock)
      ]

  created-get :
      (c : Client) (offer : Bytes) (set : Bool × R) (j : Key)
      → db.get j (init_created db c offer set).1 ≡ db.get j set.1
  created-get c offer (true, r) j = laws.zadd_get j c.name c.insert_time r
  created-get c offer (false, r) j = refl

  -- `mid` is the store when the counter is set, if it is not there.
  created-cases :
      (c : Client) (offer : Bytes) (r mid : R)
      → SameKeys db laws r mid
      → SameKeys db laws r (init_created db c offer (db.set_nx round_ctr (number 0) mid)).1
        ⊎ Creates r (init_created db c offer (db.set_nx round_ctr (number 0) mid)).1
  created-cases c offer r mid same =
      let set = db.set_nx round_ctr (number 0) mid in
      let after = created-get c offer set in
      let round_same = same round_ctr (λ e. cc e) (λ e. cc e) in
      elim (Option-cases (db.get round_ctr mid)) [
        | inl unset ↦ inr (record {
          was = sym round_same ∙ unset;
          now = after round_ctr ∙ (laws.set_nx_here round_ctr (number 0) mid unset).1;
          else_same = λ j not_entry not_lock not_round.
              after j
              ∙ laws.set_nx_else j round_ctr (number 0) mid not_round
              ∙ same j not_entry not_lock;
        })
        | inr (w, there) ↦ inl (λ j not_entry not_lock. elim (is_round_ctr j) [
          | inl is_round ↦
              after j
              ∙ ap (λ k. db.get k set.1) is_round
              ∙ (laws.set_nx_there round_ctr (number 0) w mid there).1
              ∙ sym there
              ∙ round_same
              ∙ ap (λ k. db.get k r) (sym is_round)
          | inr not_round ↦
              after j
              ∙ laws.set_nx_else j round_ctr (number 0) mid not_round
              ∙ same j not_entry not_lock
        ])
      ]

  set-cases :
      (c : Client) (offer : Bytes) (r : R) (set : Bool × R)
      → SameKeys db laws r set.1
      → SameKeys db laws r (init_set db c offer set).1 ⊎ Creates r (init_set db c offer set).1
  set-cases c offer r (true, r₁) same =
      created-cases c offer r (expire db c r₁) (λ j not_entry not_lock.
        laws.zrembyscore_get j 0 c.expiry_time r₁ ∙ same j not_entry not_lock)
  set-cases c offer r (false, r₁) same = inl (λ j not_entry not_lock.
      present-SameKeys c offer (db.get entry r₁) (as_number (db.get round_ctr r₁)) (expire db c r₁)
        j not_entry not_lock
      ∙ laws.zrembyscore_get j 0 c.expiry_time r₁
      ∙ same j not_entry not_lock)

  pub try_init-cases :
      (c : Client) (offer : Bytes) (r : R)
      → SameKeys db laws r (try_init_script db c offer r).1
        ⊎ Creates r (try_init_script db c offer r).1
  unfolding try_init_script
  try_init-cases c offer r =
      set-cases c offer r (db.set_nx entry (bytes offer) r)
        (λ j not_entry not_lock. laws.set_nx_else j entry (bytes offer) r not_entry)
