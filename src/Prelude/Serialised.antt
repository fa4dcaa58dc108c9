-- ===== src/Prelude/Serialised.antt =====
-- A serialised value, `Vec<u8>`, and the equality of such values and of lists of them.
use tbm.Prelude.Tests.{◌==◌, ==_iff, &&-true}
use Prim.Native.Nat.{ℕ}
use mathlib.Core.Bool.{Bool, true, false, ◌&&◌, ◌||◌}
use mathlib.Core.List.{List, [], ◌∷◌}
use mathlib.Core.Path.{◌≡◌, refl, ap₂}
use native.Mathlib.Omega.{arith}

abbrev pub Bytes : Type 0
Bytes = List ℕ

abbrev pub bytes_eq : Bytes → Bytes → Bool
bytes_eq [] [] = true
bytes_eq (x ∷ xs) (y ∷ ys) = x == y && bytes_eq xs ys
bytes_eq _ _ = false

-- `Vec<Vec<u8>> == Vec<Vec<u8>>`
abbrev pub all_bytes_eq : List Bytes → List Bytes → Bool
all_bytes_eq [] [] = true
all_bytes_eq (x ∷ xs) (y ∷ ys) = bytes_eq x y && all_bytes_eq xs ys
all_bytes_eq _ _ = false

-- `joint.contains(x)`
abbrev pub contains : List Bytes → Bytes → Bool
contains [] x = false
contains (y ∷ ys) x = bytes_eq y x || contains ys x

-- The size of the `HashSet` that collects the items.
abbrev pub distinct : List Bytes → List Bytes
distinct [] = []
distinct (x ∷ xs) =
    let rest = distinct xs in elim (contains rest x) [ true ↦ rest | false ↦ x ∷ rest ]

pub bytes_eq_self : (x : Bytes) → bytes_eq x x ≡ true
bytes_eq_self [] = refl
bytes_eq_self (x ∷ xs) = ground (arith, bytes_eq_self xs)

pub bytes_eq→≡ : (x y : Bytes) → bytes_eq x y ≡ true → x ≡ y
bytes_eq→≡ [] [] h = refl
bytes_eq→≡ [] (y ∷ ys) h = cc
bytes_eq→≡ (x ∷ xs) [] h = cc
bytes_eq→≡ (x ∷ xs) (y ∷ ys) h =
    let (e, r) = &&-true (x == y) (bytes_eq xs ys) h in
    ap₂ ◌∷◌ ((==_iff x y).0 e) (bytes_eq→≡ xs ys r)

pub all_bytes_eq_self : (x : List Bytes) → all_bytes_eq x x ≡ true
all_bytes_eq_self [] = refl
all_bytes_eq_self (x ∷ xs) = ground (arith, bytes_eq_self x, all_bytes_eq_self xs)

pub all_bytes_eq→≡ : (x y : List Bytes) → all_bytes_eq x y ≡ true → x ≡ y
all_bytes_eq→≡ [] [] h = refl
all_bytes_eq→≡ [] (y ∷ ys) h = cc
all_bytes_eq→≡ (x ∷ xs) [] h = cc
all_bytes_eq→≡ (x ∷ xs) (y ∷ ys) h =
    let (e, r) = &&-true (bytes_eq x y) (all_bytes_eq xs ys) h in
    ap₂ ◌∷◌ (bytes_eq→≡ x y e) (all_bytes_eq→≡ xs ys r)
