-- ===== src/AtMostOnce/Fresh.antt =====
-- Nothing is dropped that has not been received before.
use tbm.Prelude.{
  ℕ, ◌-◌, ltb, ◌≡◌, ◌≢◌, refl, true, false, List, [], ◌∷◌, Option, none, some, insert, set_contains,
  contains-set_insert, arith, All, Bool-cases, inl, inr,
}
use tbm.AtMostOnce.{
  Readings, RecvState, new_state, split_off, values, forget, update_since, maybe_update, is_new,
}
use tbm.AtMostOnce.Window.{run}

-- The number `q` is neither among the delivered ones nor among those with a time.
record Unseen (q : ℕ) (s : RecvState) : Type 0 where
  fresh : set_contains s.delivered q ≡ false
  untimed : set_contains (values s.deliver_times) q ≡ false

values-split_off :
    (c q : ℕ) (m : List (ℕ × ℕ))
    → set_contains (values m) q ≡ false
    → set_contains (values (split_off c m)) q ≡ false
unfolding values split_off
values-split_off c q [] h = refl
values-split_off c q ((t, k) ∷ m) h = ground (
  arith,
  contains-set_insert k q (values m),
  contains-set_insert k q (values (split_off c m)),
  values-split_off c q m,
)

values-insert :
    (t k q : ℕ) (m : List (ℕ × ℕ))
    → k ≢ q
    → set_contains (values m) q ≡ false
    → set_contains (values (insert t k m)) q ≡ false
unfolding values
values-insert t k q [] ne h = ground arith
values-insert t k q ((u, j) ∷ m) ne h = ground (
  arith,
  contains-set_insert j q (values m),
  contains-set_insert k q (values m),
  contains-set_insert j q (values (insert t k m)),
  values-insert t k q m ne,
)

update_since-Unseen :
    (q sunset : ℕ) (last : Option ℕ) (s : RecvState) (r : Readings)
    → Unseen q s
    → Unseen q (update_since last s sunset r)
unfolding forget
update_since-Unseen q sunset none s r u = record { fresh = u.fresh; untimed = u.untimed }
update_since-Unseen q sunset (some t) s r u = elim (Bool-cases (ltb sunset (r.at_elapsed - t))) [
  | inl e ↦
      let gone = values-split_off (r.at_cutoff - sunset) q s.deliver_times u.untimed in
      rw e (record { fresh = gone; untimed = gone })
  | inr e ↦ rw e u
]

is_new-Unseen :
    (q k sunset : ℕ) (s : RecvState) (r : Readings)
    → k ≢ q
    → Unseen q s
    → Unseen q (is_new s k sunset r).0
unfolding is_new maybe_update
is_new-Unseen q k sunset s r ne u = elim (Bool-cases (set_contains s.delivered k)) [
  | inl e ↦ rw e (update_since-Unseen q sunset s.last_update s r u)
  | inr e ↦ rw e (
      update_since-Unseen q sunset s.last_update _ r (record {
        fresh = ground (arith, u.fresh);
        untimed = values-insert r.at_insert k q s.deliver_times ne u.untimed;
      }))
]

run-Unseen :
    (q sunset : ℕ) (s : RecvState) (calls : List (ℕ × Readings))
    → All (λ c. c.0 ≢ q) calls
    → Unseen q s
    → Unseen q (run sunset s calls)
run-Unseen q sunset s [] ne u = u
run-Unseen q sunset s ((k, r) ∷ calls) ne u =
    run-Unseen q sunset (is_new s k sunset r).0 calls ne.1 (is_new-Unseen q k sunset s r ne.0 u)

-- A number that none of the calls so far had is new, whatever the clock says.
pub unseen_passes :
    (q sunset : ℕ) (calls : List (ℕ × Readings)) (r : Readings)
    → All (λ c. c.0 ≢ q) calls
    → (is_new (run sunset new_state calls) q sunset r).1 ≡ true
unfolding is_new values
unseen_passes q sunset calls r ne =
    rw ((run-Unseen q sunset new_state calls ne (record { fresh = refl; untimed = refl })).fresh)
