-- ===== src/Prelude/HashMap.antt =====
-- `HashMap<u64, V>` as an association list, and `HashSet<u64>` as a list of its members. The order of
-- the entries stands for the order of iteration, which the code leaves open.
use tbm.Prelude.Tests.{◌==◌, &&-true, ==_iff, ==_self, if◌then◌else◌, Bool-cases}
use Prim.Native.Nat.{ℕ}
use tbm.Prelude.Lists.{all}
use mathlib.Core.Bool.{Bool, true, false, ◌||◌}
use mathlib.Core.List.{List, [], ◌∷◌, Memᴰ}
use mathlib.Core.Logic.{inl, inr}
use mathlib.Core.Option.{Option, none, some}
use mathlib.Core.Path.{◌≡◌, refl, ap, sym, ◌∙◌}
use native.Mathlib.Omega.{arith}

module _ {ℓ} {V : Type ℓ} where
  abbrev pub get : ℕ → List (ℕ × V) → Option V
  get k [] = none
  get k ((j, v) ∷ m) = if j == k then some v else get k m

  abbrev pub contains_key : ℕ → List (ℕ × V) → Bool
  contains_key k m = elim (get k m) [ none ↦ false | some _ ↦ true ]

  abbrev pub insert : ℕ → V → List (ℕ × V) → List (ℕ × V)
  insert k v [] = (k, v) ∷ []
  insert k v ((j, w) ∷ m) = if j == k then (k, v) ∷ m else (j, w) ∷ insert k v m

  -- A write through `get_mut(k)`: nothing where the key is missing.
  abbrev pub update : ℕ → (V → V) → List (ℕ × V) → List (ℕ × V)
  update k f [] = []
  update k f ((j, w) ∷ m) = if j == k then (j, f w) ∷ m else (j, w) ∷ update k f m

  -- `DashMap::remove`
  abbrev pub remove : ℕ → List (ℕ × V) → List (ℕ × V)
  remove k [] = []
  remove k ((j, v) ∷ m) = let rest = remove k m in if j == k then rest else (j, v) ∷ rest

  -- No key stands twice.
  abbrev pub Unique : List (ℕ × V) → Type ℓ
  Unique [] = Unit
  Unique ((k, v) ∷ m) = (get k m ≡ none) × Unique m

module _ {ℓ} {V : Type ℓ} where
  pub get-insert :
      (j k : ℕ) (v : V) (m : List (ℕ × V))
      → get j (insert k v m) ≡ (if k == j then some v else get j m)
  get-insert j k v [] = refl
  get-insert j k v ((i, w) ∷ m) = ground (arith, get-insert j k v m)

  pub get-remove :
      (j k : ℕ) (m : List (ℕ × V)) → get j (remove k m) ≡ (if k == j then none else get j m)
  get-remove j k [] = ground arith
  get-remove j k ((i, w) ∷ m) = ground (arith, get-remove j k m)

  pub get-update_self :
      (k : ℕ) (f : V → V) (v : V) (m : List (ℕ × V))
      → get k m ≡ some v
      → get k (update k f m) ≡ some (f v)
  get-update_self k f v [] h = cc
  get-update_self k f v ((i, w) ∷ m) h = ground (arith, get-update_self k f v m)

  abbrev pub write : (V → V) → Option V → Option V
  write f none = none
  write f (some v) = some (f v)

  pub write-some :
      (f : V → V) (o : Option V) (v : V) → write f o ≡ some v → (w : V) × (o ≡ some w) × (v ≡ f w)
  write-some f none v h = cc
  write-some f (some w) v h = (w, refl, cc)

  pub get-update :
      (j k : ℕ) (f : V → V) (m : List (ℕ × V))
      → get j (update k f m) ≡ (if k == j then write f (get j m) else get j m)
  get-update j k f [] = ground arith
  get-update j k f ((i, w) ∷ m) = ground (arith, get-update j k f m)

  pub get-update-none :
      (j k : ℕ) (f : V → V) (m : List (ℕ × V)) → get j m ≡ none → get j (update k f m) ≡ none
  get-update-none j k f [] h = refl
  get-update-none j k f ((i, w) ∷ m) h = ground (arith, get-update-none j k f m)

  pub get-update_ne :
      (j k : ℕ) (f : V → V) (m : List (ℕ × V)) → (k == j) ≡ false → get j (update k f m) ≡ get j m
  get-update_ne j k f [] h = refl
  get-update_ne j k f ((i, w) ∷ m) h = ground (arith, get-update_ne j k f m h)

  pub insert-Unique : (k : ℕ) (v : V) (m : List (ℕ × V)) → Unique m → Unique (insert k v m)
  insert-Unique k v [] u = (refl, tt)
  insert-Unique k v ((i, w) ∷ m) u = elim (Bool-cases (i == k)) [
    | inl e ↦ rw e (rw ((==_iff i k).0 e) at u.0, u.1)
    | inr e ↦ rw e (get-insert i k v m ∙' rw (miss e) u.0, insert-Unique k v m u.1)
  ]
    where
      infixl 30 ◌∙'◌
      ◌∙'◌ : {a b c : Option V} → a ≡ b → b ≡ c → a ≡ c
      p ∙' q = cc

      miss : (i == k) ≡ false → (k == i) ≡ false
      miss e = ground arith

  pub update-Unique : (k : ℕ) (f : V → V) (m : List (ℕ × V)) → Unique m → Unique (update k f m)
  update-Unique k f [] u = tt
  update-Unique k f ((i, w) ∷ m) u = elim (Bool-cases (i == k)) [
    | inl e ↦ rw e u
    | inr e ↦ rw e (get-update-none i k f m u.0, update-Unique k f m u.1)
  ]

  get-mem_absurd : (k : ℕ) (v : V) (m : List (ℕ × V)) → Memᴰ (k, v) m → get k m ≡ none → ⊥
  get-mem_absurd k v [] x h = elim x [ ]
  get-mem_absurd k v ((i, w) ∷ m) (Memᴰ.head e) h = cc (ap (λ p. p.0) e, ==_self k, h)
  get-mem_absurd k v ((i, w) ∷ m) (Memᴰ.tail n) h = ground (arith, get-mem_absurd k v m n)

  -- In a map without repeated keys an entry is what its key looks up.
  pub get_of_mem : (k : ℕ) (v : V) (m : List (ℕ × V)) → Unique m → Memᴰ (k, v) m → get k m ≡ some v
  get_of_mem k v [] u x = elim x [ ]
  get_of_mem k v ((i, w) ∷ m) u (Memᴰ.head e) =
      rw (ap (λ (p : ℕ × V). p.0) e, ==_self i) (ap (λ (p : ℕ × V). some p.1) (sym e))
  get_of_mem k v ((i, w) ∷ m) u (Memᴰ.tail n) = elim (Bool-cases (i == k)) [
    | inl e ↦ absurd (get-mem_absurd k v m n (rw ((==_iff i k).0 e) at u.0))
    | inr e ↦ rw e (get_of_mem k v m u.1 n)
  ]

  pub mem_of_get : (k : ℕ) (v : V) (m : List (ℕ × V)) → get k m ≡ some v → Memᴰ (k, v) m
  mem_of_get k v [] h = cc
  mem_of_get k v ((i, w) ∷ m) h = elim (Bool-cases (i == k)) [
    | inl e ↦ Memᴰ.head (ground arith)
    | inr e ↦ Memᴰ.tail (mem_of_get k v m (rw e at h))
  ]

-- `HashSet<u64>`
abbrev pub set_contains : List ℕ → ℕ → Bool
set_contains [] k = false
set_contains (x ∷ xs) k = x == k || set_contains xs k

abbrev pub set_insert : ℕ → List ℕ → List ℕ
set_insert k xs = if set_contains xs k then xs else k ∷ xs

abbrev pub union : List ℕ → List ℕ → List ℕ
union [] ys = ys
union (x ∷ xs) ys = set_insert x (union xs ys)

pub contains-set_insert :
    (x k : ℕ) (xs : List ℕ) → set_contains (set_insert x xs) k ≡ (x == k || set_contains xs k)
contains-set_insert x k xs = elim (Bool-cases (set_contains xs x)) [
  | inl e ↦ rw e (ground arith)
  | inr e ↦ rw e
]

pub contains-union :
    (xs ys : List ℕ) (k : ℕ)
    → set_contains (union xs ys) k ≡ (set_contains xs k || set_contains ys k)
contains-union [] ys k = refl
contains-union (x ∷ xs) ys k =
    contains-set_insert x k (union xs ys)
    ∙ ap (λ b. x == k || b) (contains-union xs ys k)
    ∙ ground arith

-- A test that holds of a whole set holds of each member.
pub all-contains :
    (p : ℕ → Bool) (xs : List ℕ) (k : ℕ) → all p xs ≡ true → set_contains xs k ≡ true → p k ≡ true
all-contains p [] k h m = cc
all-contains p (x ∷ xs) k h m = elim (Bool-cases (x == k)) [
  | inl e ↦ rw (← (==_iff x k).0 e) (&&-true (p x) (all p xs) h).0
  | inr e ↦ all-contains p xs k (&&-true (p x) (all p xs) h).1 (rw e at m)
]
