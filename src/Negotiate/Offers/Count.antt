-- ===== src/Negotiate/Offers/Count.antt =====
-- How many stacks a stack offers.
use tbm.Prelude.{
  ℕ, zero, suc, ◌+◌, ◌*◌, ◌^◌, ◌≤◌, ◌≡◌, List, [], ◌∷◌, map, length, length-append, length-map,
  arith,
}
use native.Mathlib.Nat.{pow-suc, one-le-pow, zero-add, suc-add}
use tbm.Negotiate.Types.{StackNonce, Stack, chunnel, absent, present, cx_list, select}
use tbm.Negotiate.Offers.{merge, merge_all, offers}

-- The number of `Select`s in a stack.
abbrev pub selects : Stack → ℕ
selects (chunnel n) = 0
selects absent = 0
selects (present s) = selects s
selects (cx_list h t) = selects h + selects t
selects (select l r p) = suc (selects l + selects r)

length-merge_all : (hs ts : List StackNonce) → length (merge_all hs ts) ≡ length hs * length ts
unfolding merge_all
length-merge_all hs [] = omega arith
length-merge_all hs (t ∷ ts) = omega (
  arith,
  length-append (map (λ h. merge h t) hs) (merge_all hs ts),
  length-map hs (λ h. merge h t),
  length-merge_all hs ts,
)

two-pow-add : (a b : ℕ) → 2 ^ (a + b) ≡ 2 ^ a * 2 ^ b
two-pow-add zero b = rw zero-add (omega arith)
two-pow-add (suc a) b =
    rw (suc-add, pow-suc 2 (a + b), pow-suc 2 a) (omega (arith, two-pow-add a b))

mul_le_mul : (a b c d : ℕ) → a ≤ c → b ≤ d → a * b ≤ c * d
mul_le_mul a b c d h k = grind arith

add-le-two-mul : (a b : ℕ) → 1 ≤ a → 1 ≤ b → a + b ≤ a * b * 2
add-le-two-mul (suc a) (suc b) h k = omega arith
add-le-two-mul zero b h k = absurd (omega arith)
add-le-two-mul (suc a) zero h k = absurd (omega arith)

-- A stack offers at most 2 ^ (number of its `Select`s) stacks.
pub length-offers-le : (s : Stack) → length (offers s) ≤ 2 ^ selects s
unfolding offers
length-offers-le (chunnel n) = omega arith
length-offers-le absent = omega arith
length-offers-le (present s) = length-offers-le s
length-offers-le (cx_list h t) = omega (
  arith,
  length-merge_all (offers h) (offers t),
  two-pow-add (selects h) (selects t),
  mul_le_mul (length (offers h)) (length (offers t)) (2 ^ selects h) (2 ^ selects t)
      (length-offers-le h) (length-offers-le t),
)
length-offers-le (select l r p) = omega (
  arith,
  length-append (offers l) (offers r),
  pow-suc 2 (selects l + selects r),
  two-pow-add (selects l) (selects r),
  add-le-two-mul (2 ^ selects l) (2 ^ selects r) (one-le-pow (selects l) 2 (omega arith))
      (one-le-pow (selects r) 2 (omega arith)),
  length-offers-le l,
  length-offers-le r,
)
