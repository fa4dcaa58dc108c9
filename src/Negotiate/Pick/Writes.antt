-- ===== src/Negotiate/Pick/Writes.antt =====
-- What `pick` makes of the offer pairs: clients' stacks stay, and each server's stack is written over
-- with the implementations of the stack that is picked, and with nothing else.
use tbm.Prelude.{
  ℕ, ◌==◌, ◌≡◌, refl, sym, ap, List, Bool-cases, inl, inr, Memᴰ, mem-filter_map, Result, ok,
  ok-injective, >>=-eq-ok, wrap-eq-ok, subst, wrap,
}
use tbm.Negotiate.Types.{
  Negotiate, StackNonce, OfferPair, Picked, Side, Stack, chunnel, absent, present, cx_list, select,
}
use tbm.Negotiate.Shift.{Shifts, Shifts-refl, Shifts-trans, guids}
use tbm.Negotiate.Pick.{
  pair_partial, pair_complete, PickResult, pick, pick_chunnel, pick_pair, check_touched_partial,
  check_touched_complete,
}
use tbm.Negotiate.Pick.Pairs.{pick_pair-Shifts}
use tbm.Negotiate.Pick.Checks.{
  Chosen, Keeps, check_touched_partial-Keeps, check_touched_complete-Keeps, pair_partial-eq,
  pick_select-Chosen, Complete, pair_complete-eq,
}

-- A pair comes from one of `pairs`, its server's half shifted by `x`.
abbrev pub Written : List OfferPair → (ℕ → ℕ) → OfferPair → Type 0
Written pairs x p = (server : StackNonce) × Memᴰ (p.0, server) pairs × Shifts x server p.1

-- The pairs of a pick, by the implementations of the stack that is picked.
abbrev pub AllWritten : List OfferPair → PickResult → Type 0
AllWritten pairs r = (p : OfferPair) → Memᴰ p r.filtered_pairs → Written pairs (guids r.stack) p

chunnel-AllWritten :
    (n : Negotiate) (pairs : List OfferPair) → AllWritten pairs (pick_chunnel n pairs)
unfolding pick_chunnel
chunnel-AllWritten n pairs = elim (Bool-cases (n.capability.guid == 0)) [
  | inl e ↦ rw e λ p m. (p.1, m, Shifts-refl _ p.1 (λ g. rw e))
  | inr e ↦ rw e λ p m.
      let (q, there, picked) = mem-filter_map (pick_pair n) p pairs m in
      let (client, shifts) = pick_pair-Shifts n q.0 q.1 p e picked in (q.1, rw client there, shifts)
]

-- A check keeps what is written.
Keeps-AllWritten :
    (pairs : List OfferPair) (check : OfferPair → Result OfferPair) (s r : PickResult)
    → ((q p : OfferPair) → check q ≡ ok p → p ≡ q)
    → AllWritten pairs s
    → Keeps check s r
    → AllWritten pairs r
Keeps-AllWritten pairs check s r same w k p m =
    let (q, there, passed) = k.pairs p m in
    subst (λ x. Written pairs x p) (sym (ap guids k.stack))
      (subst (Written pairs (guids s.stack)) (sym (same q p passed)) (w q there))

-- A choice keeps what its side has written.
Chosen-AllWritten :
    (pairs : List OfferPair) (side : Side) (picked : Result PickResult) (r : PickResult)
    → ((s : PickResult) → picked ≡ ok s → AllWritten pairs s)
    → Chosen side (check_touched_partial picked) r
    → AllWritten pairs r
Chosen-AllWritten pairs side picked r ih (pr, e, f) =
    let (s, from, keeps) = check_touched_partial-Keeps picked pr e in
    subst (AllWritten pairs) (sym f) (
      Keeps-AllWritten pairs (pair_partial s.touched_cap_guids) s pr
        (pair_partial-eq s.touched_cap_guids) (ih s from) keeps)

list-AllWritten :
    (pairs : List OfferPair) (head tail : PickResult)
    → AllWritten pairs head
    → AllWritten head.filtered_pairs tail
    → (p : OfferPair) → Memᴰ p tail.filtered_pairs
    → Written pairs (guids (Picked.cx_list head.stack tail.stack)) p
list-AllWritten pairs head tail h t p m =
    let (s1, from1, shift1) = t p m in
    let (s0, from0, shift0) = h (p.0, s1) from1 in
    (s0, from0, Shifts-trans (guids head.stack) (guids tail.stack) s0 s1 p.1 shift0 shift1)

pub pick-AllWritten :
    (t : Stack) (pairs : List OfferPair) (r : PickResult) → pick t pairs ≡ ok r → AllWritten pairs r
unfolding pick
pick-AllWritten (chunnel n) pairs r h =
    subst (AllWritten pairs) (ok-injective _ _ h) (chunnel-AllWritten n pairs)
pick-AllWritten absent pairs r h =
    subst (AllWritten pairs) (ok-injective _ _ h) (λ p m. (p.1, m, Shifts-refl _ p.1 (λ g. refl)))
pick-AllWritten (present s) pairs r h =
    let (pr, e, f) = >>=-eq-ok (pick s pairs) _ h in
    subst (AllWritten pairs) (ok-injective _ _ f) (pick-AllWritten s pairs pr e)
pick-AllWritten (cx_list h t) pairs r p =
    let (head, e, f) = >>=-eq-ok (wrap "CxList head pick failed" (pick h pairs)) _ p in
    let (tail, k, l) =
      >>=-eq-ok (wrap "CxList tail pick failed" (pick t head.filtered_pairs)) _ f in
    subst (AllWritten pairs) (ok-injective _ _ l) (
      list-AllWritten pairs head tail (pick-AllWritten h pairs head (wrap-eq-ok _ (pick h pairs) e))
        (pick-AllWritten t head.filtered_pairs tail (wrap-eq-ok _ (pick t head.filtered_pairs) k)))
pick-AllWritten (select l r prefer) pairs s h =
    elim (pick_select-Chosen prefer (pick l pairs) (pick r pairs) s h) [
      | inl c ↦ Chosen-AllWritten pairs Side.left (pick l pairs) s (pick-AllWritten l pairs) c
      | inr c ↦ Chosen-AllWritten pairs Side.right (pick r pairs) s (pick-AllWritten r pairs) c
    ]

-- What survives the full check: a written pair that is complete.
pub check_touched_complete-Written :
    (t : Stack) (pairs : List OfferPair) (r : PickResult)
    → check_touched_complete (pick t pairs) ≡ ok r
    → (p : OfferPair) → Memᴰ p r.filtered_pairs
    → Written pairs (guids r.stack) p × Complete r.touched_cap_guids p
check_touched_complete-Written t pairs r h p m =
    let (s, from, k) = check_touched_complete-Keeps (pick t pairs) r h in
    let (q, there, passed) = k.pairs p m in
    let (same, complete) = pair_complete-eq s.touched_cap_guids q p passed in
    (
      Keeps-AllWritten pairs (pair_complete s.touched_cap_guids) s r
          (λ q p e. (pair_complete-eq s.touched_cap_guids q p e).0) (pick-AllWritten t pairs s from)
          k p m,
      subst (λ x. Complete x p) (sym k.touched)
          (subst (Complete s.touched_cap_guids) (sym same) complete),
    )
