-- ===== src/Prelude/Xor.antt =====
-- The laws of exclusive or on numbers of every width, from the recursion on digits that
-- `bit_xor` stands for.
use Prim.Native.Nat.{
  ℕ, zero, suc, ◌+◌, ◌*◌, ◌/◌, ◌%◌, ◌≤◌, ◌<◌, bit_xor, digits, differ, bit_xor-bitwise,
}
use mathlib.Core.Path.{◌≡◌, refl, sym, ◌∙◌, ap}
use native.Mathlib.Omega.{arith}

abbrev xor_digits : ℕ → ℕ → ℕ → ℕ
xor_digits n a b = digits (λ b. b) differ n a b

xor_digits_fuel : (n m a b : ℕ) → a ≤ n → a ≤ m → xor_digits n a b ≡ xor_digits m a b
xor_digits_fuel zero zero a b p q = refl
xor_digits_fuel zero (suc m) zero b p q = refl
xor_digits_fuel zero (suc m) (suc a) b p q = absurd (omega arith)
xor_digits_fuel (suc n) zero zero b p q = refl
xor_digits_fuel (suc n) zero (suc a) b p q = absurd (omega arith)
xor_digits_fuel (suc n) (suc m) zero b p q = refl
xor_digits_fuel (suc n) (suc m) (suc a) b p q =
    omega (arith, xor_digits_fuel n m (suc a / 2) (b / 2) (omega arith) (omega arith))

pub zero-xor : (b : ℕ) → bit_xor 0 b ≡ b
zero-xor b = bit_xor-bitwise 0 b

differ_bits : (x y : ℕ) → x < 2 → y < 2 → differ x y ≡ (x + y) % 2
differ_bits zero zero p q = refl
differ_bits zero (suc zero) p q = refl
differ_bits (suc zero) zero p q = refl
differ_bits (suc zero) (suc zero) p q = refl
differ_bits zero (suc (suc y)) p q = absurd (omega arith)
differ_bits (suc zero) (suc (suc y)) p q = absurd (omega arith)
differ_bits (suc (suc x)) y p q = absurd (omega arith)

xor_step : (a b : ℕ) → bit_xor a b ≡ bit_xor (a / 2) (b / 2) * 2 + (a + b) % 2
xor_step zero b = omega (arith, zero-xor b, zero-xor (b / 2))
xor_step (suc a) b = omega (
  arith,
  bit_xor-bitwise (suc a) b,
  bit_xor-bitwise (suc a / 2) (b / 2),
  xor_digits_fuel a (suc a / 2) (suc a / 2) (b / 2) (omega arith) (omega arith),
  differ_bits (suc a % 2) (b % 2) (omega arith) (omega arith),
)

xor_half : (a b : ℕ) → bit_xor a b / 2 ≡ bit_xor (a / 2) (b / 2)
xor_half a b = omega (arith, xor_step a b)

xor_self_fuel : (n a : ℕ) → a ≤ n → bit_xor a a ≡ 0
xor_self_fuel n zero h = zero-xor 0
xor_self_fuel zero (suc a) h = absurd (omega arith)
xor_self_fuel (suc n) (suc a) h =
    omega (arith, xor_step (suc a) (suc a), xor_self_fuel n (suc a / 2) (omega arith))

pub xor_self : (a : ℕ) → bit_xor a a ≡ 0
xor_self a = xor_self_fuel a a (omega arith)

xor-zero_fuel : (n a : ℕ) → a ≤ n → bit_xor a 0 ≡ a
xor-zero_fuel n zero h = zero-xor 0
xor-zero_fuel zero (suc a) h = absurd (omega arith)
xor-zero_fuel (suc n) (suc a) h =
    omega (arith, xor_step (suc a) 0, xor-zero_fuel n (suc a / 2) (omega arith))

pub xor-zero : (a : ℕ) → bit_xor a 0 ≡ a
xor-zero a = xor-zero_fuel a a (omega arith)

xor_assoc_fuel : (n a b c : ℕ) → a ≤ n → bit_xor (bit_xor a b) c ≡ bit_xor a (bit_xor b c)
xor_assoc_fuel n zero b c h = ap (λ t. bit_xor t c) (zero-xor b) ∙ sym (zero-xor (bit_xor b c))
xor_assoc_fuel zero (suc a) b c h = absurd (omega arith)
xor_assoc_fuel (suc n) (suc a) b c h = omega (
  arith,
  xor_step (bit_xor (suc a) b) c,
  xor_step (suc a) (bit_xor b c),
  ap (λ t. bit_xor t (c / 2)) (xor_half (suc a) b),
  ap (λ t. bit_xor (suc a / 2) t) (xor_half b c),
  xor_step (suc a) b,
  xor_step b c,
  xor_assoc_fuel n (suc a / 2) (b / 2) (c / 2) (omega arith),
)

pub xor_assoc : (a b c : ℕ) → bit_xor (bit_xor a b) c ≡ bit_xor a (bit_xor b c)
xor_assoc a b c = xor_assoc_fuel a a b c (omega arith)

xor_comm_fuel : (n a b : ℕ) → a ≤ n → bit_xor a b ≡ bit_xor b a
xor_comm_fuel n zero b h = zero-xor b ∙ sym (xor-zero b)
xor_comm_fuel zero (suc a) b h = absurd (omega arith)
xor_comm_fuel (suc n) (suc a) b h = omega (
  arith,
  xor_step (suc a) b,
  xor_step b (suc a),
  xor_comm_fuel n (suc a / 2) (b / 2) (omega arith),
)

pub xor_comm : (a b : ℕ) → bit_xor a b ≡ bit_xor b a
xor_comm a b = xor_comm_fuel a a b (omega arith)

-- Numbers whose exclusive or is 0 are equal.
pub xor-eq-zero : (a b : ℕ) → bit_xor a b ≡ 0 → a ≡ b
xor-eq-zero a b h =
    sym (xor-zero a)
    ∙ ap (bit_xor a) (sym (xor_self b))
    ∙ sym (xor_assoc a b b)
    ∙ ap (λ t. bit_xor t b) h
    ∙ zero-xor b
