-- ===== src/Prelude/Results.antt =====
-- `Result<_, Report>`: an error is a chain of messages, `wrap_err` putting one in front of another. The
-- values that the messages print are left out.
use Prim.Native.String.{String}
use mathlib.Core.Bool.{Bool, true, false}
use mathlib.Core.Option.{Option, none, some}
use mathlib.Core.Logic.{◌⊎◌, inl, inr}
use mathlib.Core.Path.{◌≡◌, refl}

pub data Report : Type 0 where
  eyre : String → Report
  wrap_err : Report → Report → Report

pub data Result {ℓ} (A : Type ℓ) : Type ℓ where
  ok : A → Result A
  err : Report → Result A

-- `r.wrap_err(message)`
abbrev pub wrap {ℓ} : {A : Type ℓ} → String → Result A → Result A
wrap s (ok a) = ok a
wrap s (err e) = err (wrap_err e (eyre s))

infixl 5 ◌>>=◌
abbrev pub ◌>>=◌ {ℓ κ} : {A : Type ℓ} {B : Type κ} → Result A → (A → Result B) → Result B
err e >>= next = err e
ok a >>= next = next a

abbrev pub is_err {ℓ} : {A : Type ℓ} → Result A → Bool
is_err (ok a) = false
is_err (err e) = true

-- `r.ok()`
abbrev pub to_option {ℓ} : {A : Type ℓ} → Result A → Option A
to_option (ok a) = some a
to_option (err e) = none

pub to_option-some {ℓ} : {A : Type ℓ} (r : Result A) (a : A) → to_option r ≡ some a → r ≡ ok a
to_option-some (ok b) a h = cc
to_option-some (err e) a h = cc

pub ok-injective {ℓ} : {A : Type ℓ} (a b : A) → ok a ≡ ok b → a ≡ b
ok-injective a b h = cc

-- A chain that succeeds has a first step that succeeds.
pub >>=-eq-ok {ℓ κ} :
    {A : Type ℓ} {B : Type κ} (r : Result A) (next : A → Result B) {b : B}
    → (r >>= next) ≡ ok b
    → (a : A) × (r ≡ ok a) × (next a ≡ ok b)
>>=-eq-ok (err e) next eq = absurd (cc)
>>=-eq-ok (ok first) next eq = (first, refl, eq)

pub wrap-eq-ok {ℓ} : {A : Type ℓ} (s : String) (r : Result A) {a : A} → wrap s r ≡ ok a → r ≡ ok a
wrap-eq-ok s (ok b) h = h
wrap-eq-ok s (err e) h = cc

-- To split on a result and keep the equation.
pub Result-cases {ℓ} :
    {A : Type ℓ} (r : Result A) → ((a : A) × (r ≡ ok a)) ⊎ ((e : Report) × (r ≡ err e))
Result-cases (ok a) = inl (a, refl)
Result-cases (err e) = inr (e, refl)

-- What a call comes to that may also panic, by `assert!`, `unwrap` or `expect`.
pub data Outcome {ℓ} (A : Type ℓ) : Type ℓ where
  returns : Result A → Outcome A
  panics : Outcome A
