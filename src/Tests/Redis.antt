-- ===== src/Tests/Redis.antt =====
-- A store for redis-basechunnel that is a function from keys and a list of members.
use tbm.Prelude.{
  ℕ, suc, ◌==◌, ==_iff, ==_self, ltb, ◌≡◌, ◌≢◌, refl, ap, ◌∙◌, Bool, true, false, List, [], ◌∷◌,
  Option, none, some, if◌then◌else◌, length, inl, inr, Bool-cases,
}
use tbm.Redis.Store.{
  Key, entry, round_ctr, join_lock, staged, committed_cnt, Value, number, Commands, Laws,
}
use tbm.Redis.Scripts.{as_number}

pub record Server : Type 0 where
  pub keys : Key → Option Value
  pub members : List (ℕ × ℕ)

abbrev key_eq : Key → Key → Bool
key_eq entry entry = true
key_eq round_ctr round_ctr = true
key_eq join_lock join_lock = true
key_eq (staged m) (staged n) = m == n
key_eq (committed_cnt m) (committed_cnt n) = m == n
key_eq _ _ = false

key_eq_self : (k : Key) → key_eq k k ≡ true
key_eq_self entry = refl
key_eq_self round_ctr = refl
key_eq_self join_lock = refl
key_eq_self (staged n) = ==_self n
key_eq_self (committed_cnt n) = ==_self n

key_eq→≡ : (j k : Key) → key_eq j k ≡ true → j ≡ k
key_eq→≡ entry entry h = refl
key_eq→≡ entry round_ctr h = absurd (cc h)
key_eq→≡ entry join_lock h = absurd (cc h)
key_eq→≡ entry (staged n) h = absurd (cc h)
key_eq→≡ entry (committed_cnt n) h = absurd (cc h)
key_eq→≡ round_ctr entry h = absurd (cc h)
key_eq→≡ round_ctr round_ctr h = refl
key_eq→≡ round_ctr join_lock h = absurd (cc h)
key_eq→≡ round_ctr (staged n) h = absurd (cc h)
key_eq→≡ round_ctr (committed_cnt n) h = absurd (cc h)
key_eq→≡ join_lock entry h = absurd (cc h)
key_eq→≡ join_lock round_ctr h = absurd (cc h)
key_eq→≡ join_lock join_lock h = refl
key_eq→≡ join_lock (staged n) h = absurd (cc h)
key_eq→≡ join_lock (committed_cnt n) h = absurd (cc h)
key_eq→≡ (staged m) entry h = absurd (cc h)
key_eq→≡ (staged m) round_ctr h = absurd (cc h)
key_eq→≡ (staged m) join_lock h = absurd (cc h)
key_eq→≡ (staged m) (staged n) h = ap staged ((==_iff m n).0 h)
key_eq→≡ (staged m) (committed_cnt n) h = absurd (cc h)
key_eq→≡ (committed_cnt m) entry h = absurd (cc h)
key_eq→≡ (committed_cnt m) round_ctr h = absurd (cc h)
key_eq→≡ (committed_cnt m) join_lock h = absurd (cc h)
key_eq→≡ (committed_cnt m) (staged n) h = absurd (cc h)
key_eq→≡ (committed_cnt m) (committed_cnt n) h = ap committed_cnt ((==_iff m n).0 h)

key_eq_ne : (j k : Key) → j ≢ k → key_eq j k ≡ false
key_eq_ne j k h = elim (Bool-cases (key_eq j k)) [
  | inl same ↦ absurd (h (key_eq→≡ j k same))
  | inr other ↦ other
]

abbrev put : Key → Option Value → Server → Server
put k v s = record s { keys = λ j. if key_eq j k then v else s.keys j }

abbrev put_new : Option Value → Key → Value → Server → Bool × Server
put_new none k v s = (true, put k (some v) s)
put_new (some w) k v s = (false, s)

abbrev or_zero : Option ℕ → ℕ
or_zero none = 0
or_zero (some n) = n

abbrev without : ℕ → List (ℕ × ℕ) → List (ℕ × ℕ)
without name [] = []
without name ((n, t) ∷ ms) = let rest = without name ms in if n == name then rest else (n, t) ∷ rest

abbrev later : ℕ → List (ℕ × ℕ) → List (ℕ × ℕ)
later high [] = []
later high ((n, t) ∷ ms) = let rest = later high ms in if ltb high t then (n, t) ∷ rest else rest

abbrev pub server : Commands Server
server = record {
  get = λ k s. s.keys k;
  set = λ k v s. put k (some v) s;
  set_nx = λ k v s. put_new (s.keys k) k v s;
  set_nx_ex = λ k v secs s. put_new (s.keys k) k v s;
  del = λ k s. put k none s;
  incr = λ k s. let n = suc (or_zero (as_number (s.keys k))) in (n, put k (some (number n)) s);
  zadd = λ name time s. record s { members = (name, time) ∷ without name s.members };
  zrem = λ name s. record s { members = without name s.members };
  zrembyscore = λ low high s. record s { members = later high s.members };
  zcard = λ s. length s.members;
}

put_here : (k : Key) (v : Option Value) (s : Server) → (put k v s).keys k ≡ v
put_here k v s = rw (key_eq_self k) refl

put_else : (j k : Key) (v : Option Value) (s : Server) → j ≢ k → (put k v s).keys j ≡ s.keys j
put_else j k v s ne = rw (key_eq_ne j k ne) refl

put_new_here :
    (o : Option Value) (k : Key) (v : Value) (s : Server)
    → o ≡ none
    → ((put_new o k v s).0 ≡ true) × ((put_new o k v s).1.keys k ≡ some v)
put_new_here none k v s e = (refl, put_here k (some v) s)
put_new_here (some w) k v s e = absurd (cc e)

put_new_there :
    (o : Option Value) (k : Key) (v w : Value) (s : Server)
    → o ≡ some w
    → s.keys k ≡ some w
    → ((put_new o k v s).0 ≡ false) × ((put_new o k v s).1.keys k ≡ some w)
put_new_there none k v w s e there = absurd (cc e)
put_new_there (some x) k v w s e there = (refl, there)

put_new_else :
    (o : Option Value) (j k : Key) (v : Value) (s : Server)
    → j ≢ k
    → (put_new o k v s).1.keys j ≡ s.keys j
put_new_else none j k v s ne = put_else j k (some v) s ne
put_new_else (some w) j k v s ne = refl

pub server-Laws : Laws server
server-Laws = record {
  set_here = λ k v s. put_here k (some v) s;
  set_else = λ j k v s ne. put_else j k (some v) s ne;
  set_nx_here = λ k v s e. put_new_here (s.keys k) k v s e;
  set_nx_there = λ k v w s e. put_new_there (s.keys k) k v w s e e;
  set_nx_else = λ j k v s ne. put_new_else (s.keys k) j k v s ne;
  set_nx_ex_else = λ j k v secs s ne. put_new_else (s.keys k) j k v s ne;
  del_here = λ k s. put_here k none s;
  del_else = λ j k s ne. put_else j k none s ne;
  incr_here = λ k n s e. (
    ap (λ o. suc (or_zero (as_number o))) e,
    put_here k _ s ∙ ap (λ o. some (number (suc (or_zero (as_number o))))) e,
  );
  incr_else = λ j k s ne. put_else j k _ s ne;
  zadd_get = λ j name time s. refl;
  zrem_get = λ j name s. refl;
  zrembyscore_get = λ j low high s. refl;
}
