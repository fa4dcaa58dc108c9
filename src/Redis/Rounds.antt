-- ===== src/Redis/Rounds.antt =====
-- Clients that commit new semantics one after another, as steps on the store that they share. One step is
-- one script or pipe, which Redis executes atomically. A committer whose query fails takes no further step
-- as one and keeps its role; the pipes that only read the counter or keep a client alive are no steps.
use tbm.Prelude.{
  ℕ, ◌==◌, ◌%◌, ◌≡◌, ◌≢◌, ◌<◌, refl, ◌∙◌, sym, Bool, true, false, none, some, if◌then◌else◌, Bytes,
  ok, ◌⊎◌, inl, inr, Bool-cases, ==_iff,
}
use tbm.Redis.Store.{round_ctr, join_lock, staged, committed_cnt, Value, number, bytes, Commands}
use tbm.Redis.Scripts.{
  Client, try_init_script, poll_entry_script, transition_script, stage, clean_up, read_staged,
  read_committed, acknowledge,
}

-- What a client is about to do: `locked` after transition.lua made it the committer of a round, `has_staged`
-- after its staging pipe, `follows` after it has read the staged value of a round.
pub data Role : Type 0 where
  idle : Role
  locked has_staged : Bytes → ℕ → Role
  follows : ℕ → Role

pub record System (R : Type 0) : Type 0 where
  pub store : R
  pub roles : ℕ → Role

abbrev pub set_role : ℕ → Role → (ℕ → Role) → ℕ → Role
set_role i p roles j = if i == j then p else roles j

abbrev pub commits : Role → Bool
commits idle = false
commits (locked nonce r) = true
commits (has_staged nonce r) = true
commits (follows r) = false

module _ {R : Type 0} (db : Commands R) where
  pub data Step : System R → System R → Type 0 where
    locks :
        (s : System R) (i : ℕ) (c : Client) (nonce : Bytes) (r : ℕ) (store : R)
        → s.roles i ≡ idle
        → transition_script db c s.store ≡ (ok (true, r), store)
        → Step s (record { store = store; roles = set_role i (locked nonce r) s.roles })
    converts :
        (s : System R) (c : Client) (r : ℕ) (store : R)
        → transition_script db c s.store ≡ (ok (false, r), store)
        → Step s (record s { store = store })
    stages :
        (s : System R) (i : ℕ) (c : Client) (nonce : Bytes) (r : ℕ)
        → s.roles i ≡ locked nonce r
        → Step s (record {
          store = (stage db c r nonce s.store).1;
          roles = set_role i (has_staged nonce r) s.roles;
        })
    cleans :
        (s : System R) (i : ℕ) (nonce : Bytes) (r : ℕ)
        → s.roles i ≡ has_staged nonce r
        → Step s
            (record { store = (clean_up db r nonce s.store).1; roles = set_role i idle s.roles })
    sees :
        (s : System R) (i : ℕ) (c : Client) (r : ℕ) (b : Bytes)
        → s.roles i ≡ idle
        → (read_staged db c r s.store).0.0 ≡ some b
        → Step s (record {
          store = (read_staged db c r s.store).1;
          roles = set_role i (follows r) s.roles;
        })
    acks :
        (s : System R) (i : ℕ) (c : Client) (r : ℕ)
        → s.roles i ≡ follows r
        → Step s
            (record { store = (acknowledge db c r s.store).1; roles = set_role i idle s.roles })
    gives_up :
        (s : System R) (i r : ℕ)
        → s.roles i ≡ follows r
        → Step s (record s { roles = set_role i idle s.roles })
    inits :
        (s : System R) (c : Client) (offer : Bytes)
        → Step s (record s { store = (try_init_script db c offer s.store).1 })
    polls :
        (s : System R) (c : Client)
        → Step s (record s { store = (poll_entry_script db c s.store).1 })
    refreshes :
        (s : System R) (c : Client) (r : ℕ)
        → Step s (record s { store = (read_committed db c r s.store).1 })
    leaves : (s : System R) (name : ℕ) → Step s (record s { store = db.zrem name s.store })
    unlocks : (s : System R) → Step s (record s { store = db.del join_lock s.store })

  -- What holds between the steps. The counter names the only committer's round, which is odd; nothing is
  -- staged ahead of it.
  pub record IsClean (s : System R) : Type 0 where
    pub counter : (v : Value) → db.get round_ctr s.store ≡ some v → (n : ℕ) × (v ≡ number n)
    pub locked_clean :
        (i : ℕ) (nonce : Bytes) (r : ℕ)
        → s.roles i ≡ locked nonce r
        → (db.get round_ctr s.store ≡ some (number r))
          × (r % 2 ≡ 1)
          × (db.get (staged r) s.store ≡ none)
          × (db.get (committed_cnt r) s.store ≡ none)
    pub staged_clean :
        (i : ℕ) (nonce : Bytes) (r : ℕ)
        → s.roles i ≡ has_staged nonce r
        → (db.get round_ctr s.store ≡ some (number r))
          × (r % 2 ≡ 1)
          × (db.get (staged r) s.store ≡ some (bytes nonce))
    pub one_commits : (i j : ℕ) → commits (s.roles i) ≡ true → commits (s.roles j) ≡ true → i ≡ j
    pub followed :
        (i r : ℕ)
        → s.roles i ≡ follows r
        → (n : ℕ) × (db.get round_ctr s.store ≡ some (number n))
          × ((r < n) ⊎ ((r ≡ n) × (v : Value) × (db.get (staged r) s.store ≡ some v)))
    pub ahead :
        (n r : ℕ)
        → db.get round_ctr s.store ≡ some (number n)
        → n < r
        → (db.get (staged r) s.store ≡ none) × (db.get (committed_cnt r) s.store ≡ none)
    pub unset :
        (r : ℕ)
        → db.get round_ctr s.store ≡ none
        → (db.get (staged r) s.store ≡ none) × (db.get (committed_cnt r) s.store ≡ none)

-- The role of a client after a change.
pub role-cases :
    (P : Role → Type 0) (i j : ℕ) (p : Role) (roles : ℕ → Role)
    → P (set_role i p roles j)
    → ((i ≡ j) × P p) ⊎ ((i ≢ j) × P (roles j))
role-cases P i j p roles h = elim (Bool-cases (i == j)) [
  | inl same ↦ inl ((==_iff i j).0 same, rw (same) at h)
  | inr other ↦ inr ((λ e. absurd (cc (sym other ∙ (==_iff i j).1 e))), rw (other) at h)
]

pub commits-cases :
    (p : Role)
    → commits p ≡ true
    → ((nonce : Bytes) × (r : ℕ) × (p ≡ locked nonce r))
      ⊎ ((nonce : Bytes) × (r : ℕ) × (p ≡ has_staged nonce r))
commits-cases idle h = absurd (cc h)
commits-cases (follows r) h = absurd (cc h)
commits-cases (locked nonce r) h = inl (nonce, r, refl)
commits-cases (has_staged nonce r) h = inr (nonce, r, refl)
