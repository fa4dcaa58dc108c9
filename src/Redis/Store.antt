-- ===== src/Redis/Store.antt =====
-- The commands of Redis that redis-basechunnel uses, on the keys of one address.
use tbm.Prelude.{ℕ, suc, ◌≡◌, ◌≢◌, Bool, true, false, Option, none, some, Bytes}

-- The keys `addr`, `addr-roundctr`, `addr-joinlock`, `addr-{round}-staged` and
-- `addr-{round}-committed-cnt`; the sorted set `addr-members` has commands of its own.
pub data Key : Type 0 where
  entry round_ctr join_lock : Key
  staged committed_cnt : ℕ → Key

pub data Value : Type 0 where
  number : ℕ → Value
  bytes : Bytes → Value

-- `R` is the state of the server. Names of clients are numbers, and so are instants.
pub record Commands (R : Type 0) : Type 0 where
  pub get : Key → R → Option Value
  pub set : Key → Value → R → R
  pub set_nx : Key → Value → R → Bool × R
  pub set_nx_ex : Key → Value → ℕ → R → Bool × R
  pub del : Key → R → R
  pub incr : Key → R → ℕ × R
  pub zadd : ℕ → ℕ → R → R
  pub zrem : ℕ → R → R
  pub zrembyscore : ℕ → ℕ → R → R
  pub zcard : R → ℕ

-- The documented behaviour of the commands, as far as `get` sees it.
pub record Laws {R : Type 0} (db : Commands R) : Type 0 where
  pub set_here : (k : Key) (v : Value) (r : R) → db.get k (db.set k v r) ≡ some v
  pub set_else : (j k : Key) (v : Value) (r : R) → j ≢ k → db.get j (db.set k v r) ≡ db.get j r
  pub set_nx_here :
      (k : Key) (v : Value) (r : R)
      → db.get k r ≡ none
      → ((db.set_nx k v r).0 ≡ true) × (db.get k (db.set_nx k v r).1 ≡ some v)
  pub set_nx_there :
      (k : Key) (v w : Value) (r : R)
      → db.get k r ≡ some w
      → ((db.set_nx k v r).0 ≡ false) × (db.get k (db.set_nx k v r).1 ≡ some w)
  pub set_nx_else :
      (j k : Key) (v : Value) (r : R) → j ≢ k → db.get j (db.set_nx k v r).1 ≡ db.get j r
  pub set_nx_ex_else :
      (j k : Key) (v : Value) (secs : ℕ) (r : R)
      → j ≢ k
      → db.get j (db.set_nx_ex k v secs r).1 ≡ db.get j r
  pub del_here : (k : Key) (r : R) → db.get k (db.del k r) ≡ none
  pub del_else : (j k : Key) (r : R) → j ≢ k → db.get j (db.del k r) ≡ db.get j r
  pub incr_here :
      (k : Key) (n : ℕ) (r : R)
      → db.get k r ≡ some (number n)
      → ((db.incr k r).0 ≡ suc n) × (db.get k (db.incr k r).1 ≡ some (number (suc n)))
  pub incr_else : (j k : Key) (r : R) → j ≢ k → db.get j (db.incr k r).1 ≡ db.get j r
  pub zadd_get : (j : Key) (name time : ℕ) (r : R) → db.get j (db.zadd name time r) ≡ db.get j r
  pub zrem_get : (j : Key) (name : ℕ) (r : R) → db.get j (db.zrem name r) ≡ db.get j r
  pub zrembyscore_get :
      (j : Key) (low high : ℕ) (r : R) → db.get j (db.zrembyscore low high r) ≡ db.get j r
