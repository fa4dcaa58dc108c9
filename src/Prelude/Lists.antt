-- ===== src/Prelude/Lists.antt =====
-- Lists: lengths over the native numbers, Boolean tests over the elements, filtering maps, and the
-- predicates by which statements speak of members.
use Prim.Native.Nat.{ℕ, suc, ◌+◌}
use mathlib.Core.Path.{◌≡◌, refl, ap, ◌∙◌}
use mathlib.Core.Bool.{Bool, true, false, ◌&&◌}
use mathlib.Core.List.{List, [], ◌∷◌, ◌++◌, map, Memᴰ}
use mathlib.Core.Logic.{◌⊎◌, inl, inr}
use mathlib.Core.Option.{Option, none, some}
use native.Mathlib.Omega.{arith}
use tbm.Prelude.Tests.{Bool-cases, &&-true}

module _ {ℓ} {A : Type ℓ} where
  abbrev pub length : List A → ℕ
  length [] = 0
  length (x ∷ xs) = suc (length xs)

  pub length-append : (xs ys : List A) → length (xs ++ ys) ≡ length xs + length ys
  length-append [] ys = omega arith
  length-append (x ∷ xs) ys = omega (arith, length-append xs ys)

  -- `iter().all(p)`
  abbrev pub all : (A → Bool) → List A → Bool
  all p [] = true
  all p (x ∷ xs) = p x && all p xs

  abbrev pub All {κ} : (A → Type κ) → List A → Type κ
  All P [] = Unit
  All P (x ∷ xs) = P x × All P xs

  -- `iter().find(p)`
  abbrev pub find : (A → Bool) → List A → Option A
  find p [] = none
  find p (x ∷ xs) = let rest = find p xs in elim (p x) [ true ↦ some x | false ↦ rest ]

module _ {ℓ} {A : Type ℓ} where
  pub length-map {κ} : {B : Type κ} (xs : List A) (f : A → B) → length (map f xs) ≡ length xs
  length-map [] f = refl
  length-map (x ∷ xs) f = ap suc (length-map xs f)

  pub all-mem : (p : A → Bool) (a : A) (xs : List A) → all p xs ≡ true → Memᴰ a xs → p a ≡ true
  all-mem p a [] h m = elim m [ ]
  all-mem p a (x ∷ xs) h (Memᴰ.head e) = ap p e ∙ (&&-true (p x) (all p xs) h).0
  all-mem p a (x ∷ xs) h (Memᴰ.tail m) = all-mem p a xs (&&-true (p x) (all p xs) h).1 m

  pub all_of_mem :
      (p : A → Bool) (xs : List A) → ((a : A) → Memᴰ a xs → p a ≡ true) → all p xs ≡ true
  all_of_mem p [] h = refl
  all_of_mem p (x ∷ xs) h =
      ground (arith, h x (Memᴰ.head refl), all_of_mem p xs (λ a m. h a (Memᴰ.tail m)))

  pub All-mem {κ} : (P : A → Type κ) (a : A) (xs : List A) → All P xs → Memᴰ a xs → P a
  All-mem P a [] h m = elim m [ ]
  All-mem P a (x ∷ xs) h (Memᴰ.head e) = rw e h.0
  All-mem P a (x ∷ xs) h (Memᴰ.tail m) = All-mem P a xs h.1 m

  pub All-of_mem {κ} : (P : A → Type κ) (xs : List A) → ((a : A) → Memᴰ a xs → P a) → All P xs
  All-of_mem P [] h = tt
  All-of_mem P (x ∷ xs) h = (h x (Memᴰ.head refl), All-of_mem P xs (λ a m. h a (Memᴰ.tail m)))

  pub mem-append_left : (a : A) (xs ys : List A) → Memᴰ a xs → Memᴰ a (xs ++ ys)
  mem-append_left a [] ys m = elim m [ ]
  mem-append_left a (x ∷ xs) ys (Memᴰ.head e) = Memᴰ.head e
  mem-append_left a (x ∷ xs) ys (Memᴰ.tail m) = Memᴰ.tail (mem-append_left a xs ys m)

  pub mem-append_right : (a : A) (xs ys : List A) → Memᴰ a ys → Memᴰ a (xs ++ ys)
  mem-append_right a [] ys m = m
  mem-append_right a (x ∷ xs) ys m = Memᴰ.tail (mem-append_right a xs ys m)

  pub mem-append-cases : (a : A) (xs ys : List A) → Memᴰ a (xs ++ ys) → Memᴰ a xs ⊎ Memᴰ a ys
  mem-append-cases a [] ys m = inr m
  mem-append-cases a (x ∷ xs) ys (Memᴰ.head e) = inl (Memᴰ.head e)
  mem-append-cases a (x ∷ xs) ys (Memᴰ.tail m) = elim (mem-append-cases a xs ys m) [
    | inl l ↦ inl (Memᴰ.tail l)
    | inr r ↦ inr r
  ]

  -- A search that has an element to find succeeds, and what it finds passes the test.
  pub find-some :
      (p : A → Bool) (a : A) (xs : List A)
      → Memᴰ a xs
      → p a ≡ true
      → (b : A) × (find p xs ≡ some b) × Memᴰ b xs × (p b ≡ true)
  find-some p a [] m h = elim m [ ]
  find-some p a (x ∷ xs) (Memᴰ.head e) h =
      let here : p x ≡ true = cc (ap p e) in (x, rw (here, find), Memᴰ.head refl, here)
  find-some p a (x ∷ xs) (Memᴰ.tail m) h =
      let (b, found, there, pass) = find-some p a xs m h in
      elim (Bool-cases (p x)) [
        | inl hit ↦ (x, rw (hit, find), Memᴰ.head refl, hit)
        | inr miss ↦ (b, rw (miss, find) found, Memᴰ.tail there, pass)
      ]

  pub find-eq-some :
      (p : A → Bool) (b : A) (xs : List A) → find p xs ≡ some b → Memᴰ b xs × (p b ≡ true)
  find-eq-some p b [] h = absurd (cc)
  find-eq-some p b (x ∷ xs) h = elim (Bool-cases (p x)) [
    | inl hit ↦ let same : b ≡ x = cc (rw (hit, find) at h) in (Memᴰ.head same, ap p same ∙ hit)
    | inr miss ↦
        let (there, pass) = find-eq-some p b xs (rw (miss, find) at h) in (Memᴰ.tail there, pass)
  ]

-- `iter().filter_map(f)`
module _ {κ} {B : Type κ} where
  abbrev pub cons_some : Option B → List B → List B
  cons_some none ys = ys
  cons_some (some y) ys = y ∷ ys

  mem-cons_some :
      (o : Option B) (y : B) (ys : List B) → Memᴰ y (cons_some o ys) → (o ≡ some y) ⊎ Memᴰ y ys
  mem-cons_some none y ys m = inr m
  mem-cons_some (some z) y ys (Memᴰ.head e) = inl (cc e)
  mem-cons_some (some z) y ys (Memᴰ.tail m) = inr m

  cons_some-head : (o : Option B) (y : B) (ys : List B) → o ≡ some y → Memᴰ y (cons_some o ys)
  cons_some-head none y ys h = cc
  cons_some-head (some z) y ys h = Memᴰ.head (cc)

  cons_some-tail : (o : Option B) (y : B) (ys : List B) → Memᴰ y ys → Memᴰ y (cons_some o ys)
  cons_some-tail none y ys m = m
  cons_some-tail (some z) y ys m = Memᴰ.tail m

module _ {ℓ κ} {A : Type ℓ} {B : Type κ} where
  abbrev pub filter_map : (A → Option B) → List A → List B
  filter_map f [] = []
  filter_map f (x ∷ xs) = cons_some (f x) (filter_map f xs)

  -- Each element of the result comes from one of the list.
  pub mem-filter_map :
      (f : A → Option B) (y : B) (xs : List A)
      → Memᴰ y (filter_map f xs)
      → (x : A) × Memᴰ x xs × (f x ≡ some y)
  mem-filter_map f y [] m = elim m [ ]
  mem-filter_map f y (x ∷ xs) m = elim (mem-cons_some (f x) y (filter_map f xs) m) [
    | inl e ↦ (x, Memᴰ.head refl, e)
    | inr n ↦ let (z, there, e) = mem-filter_map f y xs n in (z, Memᴰ.tail there, e)
  ]

  pub filter_map-mem :
      (f : A → Option B) (x : A) (y : B) (xs : List A)
      → Memᴰ x xs
      → f x ≡ some y
      → Memᴰ y (filter_map f xs)
  filter_map-mem f x y [] m h = elim m [ ]
  filter_map-mem f x y (z ∷ xs) (Memᴰ.head e) h =
      cons_some-head (f z) y (filter_map f xs) (cc (ap f e))
  filter_map-mem f x y (z ∷ xs) (Memᴰ.tail m) h =
      cons_some-tail (f z) y (filter_map f xs) (filter_map-mem f x y xs m h)

pub some-injective {ℓ} : {A : Type ℓ} {a b : A} → some a ≡ some b → a ≡ b
some-injective h = cc

module _ {ℓ κ} {A : Type ℓ} {B : Type κ} where
  pub mem-map :
      (f : A → B) (y : B) (xs : List A) → Memᴰ y (map f xs) → (x : A) × Memᴰ x xs × (y ≡ f x)
  mem-map f y [] m = elim m [ ]
  mem-map f y (x ∷ xs) (Memᴰ.head e) = (x, Memᴰ.head refl, e)
  mem-map f y (x ∷ xs) (Memᴰ.tail m) =
      let (z, there, e) = mem-map f y xs m in (z, Memᴰ.tail there, e)

  pub map-mem : (f : A → B) (x : A) (xs : List A) → Memᴰ x xs → Memᴰ (f x) (map f xs)
  map-mem f x [] m = elim m [ ]
  map-mem f x (z ∷ xs) (Memᴰ.head e) = Memᴰ.head (ap f e)
  map-mem f x (z ∷ xs) (Memᴰ.tail m) = Memᴰ.tail (map-mem f x xs m)
