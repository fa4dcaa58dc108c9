-- ===== src/AtMostOnce/Window.antt =====
-- What a `RecvState` remembers, and for how long.
use tbm.Prelude.{
  ℕ, suc, ◌+◌, ◌-◌, ◌≤◌, ◌==◌, ltb, ◌≡◌, ◌≢◌, refl, ◌∙◌, true, false, ◌&&◌, List, [], ◌∷◌, Option,
  none, some, if◌then◌else◌, get, insert, get-insert, set_contains, contains-set_insert, arith, All,
  Bool-cases, ==_iff, ==_self, inl, inr,
}
use tbm.AtMostOnce.{
  Readings, RecvState, split_off, values, forget, update_since, maybe_update, is_new,
}

-- The number `q` has been delivered at the instant `t`, and is remembered.
pub record Holds (t q : ℕ) (s : RecvState) : Type 0 where
  pub at : get t s.deliver_times ≡ some q
  pub known : set_contains s.delivered q ≡ true

get-split_off :
    (c t q : ℕ) (m : List (ℕ × ℕ)) → c ≤ t → get t m ≡ some q → get t (split_off c m) ≡ some q
unfolding split_off
get-split_off c t q [] h g = g
get-split_off c t q ((u, k) ∷ m) h g = ground (arith, get-split_off c t q m)

get-values : (t q : ℕ) (m : List (ℕ × ℕ)) → get t m ≡ some q → set_contains (values m) q ≡ true
unfolding values
get-values t q [] g = absurd (cc)
get-values t q ((u, k) ∷ m) g = ground (arith, contains-set_insert k q (values m), get-values t q m)

forget-Holds :
    (t q sunset : ℕ) (s : RecvState) (r : Readings)
    → r.at_cutoff ≤ t + sunset
    → Holds t q s
    → Holds t q (forget s sunset r)
unfolding forget
forget-Holds t q sunset s r h k = record {
  at = get-split_off (r.at_cutoff - sunset) t q s.deliver_times (omega arith) k.at;
  known =
      get-values t q _
        (get-split_off (r.at_cutoff - sunset) t q s.deliver_times (omega arith) k.at);
}

update_since-Holds :
    (t q sunset : ℕ) (last : Option ℕ) (s : RecvState) (r : Readings)
    → r.at_cutoff ≤ t + sunset
    → Holds t q s
    → Holds t q (update_since last s sunset r)
update_since-Holds t q sunset none s r h k = record { at = k.at; known = k.known }
update_since-Holds t q sunset (some u) s r h k = elim (Bool-cases (ltb sunset (r.at_elapsed - u))) [
  | inl e ↦ rw e (forget-Holds t q sunset s r h k)
  | inr e ↦ rw e k
]

remembered :
    (t q k : ℕ) (s : RecvState) (r : Readings)
    → r.at_insert ≢ t
    → Holds t q s
    → Holds t q (record s {
      deliver_times = insert r.at_insert k s.deliver_times;
      delivered = k ∷ s.delivered;
    })
remembered t q k s r ne held = record {
  at = ground (arith, get-insert t r.at_insert k s.deliver_times);
  known = ground arith;
}

-- A call keeps what was delivered at `t`, if it takes place within the horizon and inserts at another
-- instant.
is_new-Holds :
    (t q k sunset : ℕ) (s : RecvState) (r : Readings)
    → r.at_cutoff ≤ t + sunset
    → r.at_insert ≢ t
    → Holds t q s
    → Holds t q (is_new s k sunset r).0
unfolding is_new maybe_update
is_new-Holds t q k sunset s r h ne held = elim (Bool-cases (set_contains s.delivered k)) [
  | inl e ↦ rw e (update_since-Holds t q sunset s.last_update s r h held)
  | inr e ↦ rw e (update_since-Holds t q sunset s.last_update _ r h (remembered t q k s r ne held))
]

-- The call that delivers a number remembers it.
delivered-Holds :
    (q sunset : ℕ) (s : RecvState) (r : Readings)
    → r.at_cutoff ≤ r.at_insert + sunset
    → (is_new s q sunset r).1 ≡ true
    → Holds r.at_insert q (is_new s q sunset r).0
unfolding is_new maybe_update
delivered-Holds q sunset s r h new = elim (Bool-cases (set_contains s.delivered q)) [
  | inl e ↦ absurd (cc (rw e at new))
  | inr e ↦ rw e (
      update_since-Holds r.at_insert q sunset s.last_update _ r h (record {
        at = get-insert r.at_insert r.at_insert q s.deliver_times ∙ rw (==_self r.at_insert);
        known = rw (==_self q);
      }))
]

-- Calls of `is_new`, one after another, and how many of them let the number `q` pass.
abbrev pub run : ℕ → RecvState → List (ℕ × Readings) → RecvState
run sunset s [] = s
run sunset s ((k, r) ∷ calls) = run sunset (is_new s k sunset r).0 calls

abbrev pub passes : ℕ → ℕ → RecvState → List (ℕ × Readings) → ℕ
passes q sunset s [] = 0
passes q sunset s ((k, r) ∷ calls) =
    let rest = passes q sunset (is_new s k sunset r).0 calls in
    if k == q && (is_new s k sunset r).1 then suc rest else rest

-- Calls within the horizon of `t`, none of which inserts at the instant `t` itself.
abbrev pub WithinHorizon : ℕ → ℕ → List (ℕ × Readings) → Type 0
WithinHorizon t sunset calls = All (λ c. (c.1.at_cutoff ≤ t + sunset) × (c.1.at_insert ≢ t)) calls

held_is_old :
    (t q k sunset : ℕ) (s : RecvState) (r : Readings)
    → Holds t q s
    → (k == q && (is_new s k sunset r).1) ≡ false
unfolding is_new
held_is_old t q k sunset s r held = elim (Bool-cases (k == q)) [
  | inl e ↦ rw (e, (==_iff k q).0 e, held.known)
  | inr e ↦ rw e
]

passes-Holds :
    (t q sunset : ℕ) (s : RecvState) (calls : List (ℕ × Readings))
    → WithinHorizon t sunset calls
    → Holds t q s
    → passes q sunset s calls ≡ 0
passes-Holds t q sunset s [] w held = refl
passes-Holds t q sunset s ((k, r) ∷ calls) w held = rw (held_is_old t q k sunset s r held) (
    passes-Holds t q sunset (is_new s k sunset r).0 calls w.1
      (is_new-Holds t q k sunset s r w.0.0 w.0.1 held))

-- At most once within the horizon: after a call that lets the number `q` pass at the instant `t`, and that
-- is over by `t + sunset`, no call whose cutoff is taken by `t + sunset` lets `q` pass again,
-- if no other segment is recorded at the same instant.
pub at_most_once :
    (q sunset : ℕ) (s : RecvState) (r : Readings) (calls : List (ℕ × Readings))
    → (is_new s q sunset r).1 ≡ true
    → r.at_cutoff ≤ r.at_insert + sunset
    → WithinHorizon r.at_insert sunset calls
    → passes q sunset (is_new s q sunset r).0 calls ≡ 0
at_most_once q sunset s r calls new quick w =
    passes-Holds r.at_insert q sunset (is_new s q sunset r).0 calls w
      (delivered-Holds q sunset s r quick new)
