-- ===== src/Negotiate/Shift.antt =====
-- How picking and applying change the server's nonce: the implementation of each two-sided capability
-- is combined, by exclusive or, with those that the resulting stack has for it.
use tbm.Prelude.{
  ℕ, ◌==◌, ◌≡◌, refl, sym, ap, ◌∙◌, true, false, List, Option, none, some, bit_xor, if◌then◌else◌,
  get, update, write, get-update, Bool-cases, ==_iff, Bytes, inl, inr,
}
use tbm.Prelude.Xor.{xor-zero, xor_assoc}
use tbm.Negotiate.Types.{Negotiate, Offer, StackNonce, Picked}
use tbm.Negotiate.Pick.{toggle}

-- The implementations that a stack has for a capability, combined.
abbrev pub guids : Picked → ℕ → ℕ
guids (Picked.chunnel n) g =
    if n.capability.guid == 0 then 0 else if n.capability.guid == g then n.guid else 0
guids Picked.absent g = 0
guids (Picked.present p) g = guids p g
guids (Picked.cx_list h t) g = bit_xor (guids h g) (guids t g)
guids (Picked.either s p) g = guids p g

abbrev pub shift_sided : Option (List Bytes) → ℕ → Offer → Offer
shift_sided none x o = toggle x o
shift_sided (some univ) x o = o

abbrev pub shift : ℕ → Offer → Offer
shift x o = shift_sided o.sidedness x o

abbrev pub Shifts : (ℕ → ℕ) → StackNonce → StackNonce → Type 0
Shifts x s s' = (g : ℕ) → get g s' ≡ write (shift (x g)) (get g s)

shift-sidedness :
    (m : Option (List Bytes)) (x : ℕ) (o : Offer) → (shift_sided m x o).sidedness ≡ o.sidedness
shift-sidedness none x o = refl
shift-sidedness (some u) x o = refl

pub shift_zero : (m : Option (List Bytes)) (o : Offer) → shift_sided m 0 o ≡ o
shift_zero none o = ap (λ i. record o { impl_guid = i }) (xor-zero o.impl_guid)
shift_zero (some u) o = refl

shift-shift :
    (m : Option (List Bytes)) (x y : ℕ) (o : Offer)
    → shift_sided m y (shift_sided m x o) ≡ shift_sided m (bit_xor x y) o
shift-shift none x y o = ap (λ i. record o { impl_guid = i }) (xor_assoc o.impl_guid x y)
shift-shift (some u) x y o = refl

write-shift_zero : (o : Option Offer) → write (shift 0) o ≡ o
write-shift_zero none = refl
write-shift_zero (some o) = ap some (shift_zero o.sidedness o)

write-shift-shift :
    (x y : ℕ) (o : Option Offer)
    → write (shift y) (write (shift x) o) ≡ write (shift (bit_xor x y)) o
write-shift-shift x y none = refl
write-shift-shift x y (some o) = ap some (
    ap (λ m. shift_sided m y (shift x o)) (shift-sidedness o.sidedness x o)
    ∙ shift-shift o.sidedness x y o)

pub Shifts-refl : (x : ℕ → ℕ) (s : StackNonce) → ((g : ℕ) → x g ≡ 0) → Shifts x s s
Shifts-refl x s z g = sym (rw (z g) (write-shift_zero (get g s)))

pub Shifts-trans :
    (x y : ℕ → ℕ) (s t u : StackNonce)
    → Shifts x s t
    → Shifts y t u
    → Shifts (λ g. bit_xor (x g) (y g)) s u
Shifts-trans x y s t u p q g =
    q g ∙ ap (write (shift (y g))) (p g) ∙ write-shift-shift (x g) (y g) (get g s)

write-shift_sided :
    (m : Option (List Bytes)) (x : ℕ) (o : Option Offer)
    → ((v : Offer) → o ≡ some v → v.sidedness ≡ m)
    → write (shift_sided m x) o ≡ write (shift x) o
write-shift_sided m x none h = refl
write-shift_sided m x (some v) h = ap (λ k. some (shift_sided k x v)) (sym (h v refl))

-- One implementation of one capability.
pub update-Shifts :
    (n : Negotiate) (m : Option (List Bytes)) (s : StackNonce)
    → (n.capability.guid == 0) ≡ false
    → ((o : Offer) → get n.capability.guid s ≡ some o → o.sidedness ≡ m)
    → Shifts (guids (Picked.chunnel n)) s (update n.capability.guid (shift_sided m n.guid) s)
update-Shifts n m s nz side g = get-update g n.capability.guid (shift_sided m n.guid) s ∙ here
  where
    key_eq : (n.capability.guid == g) ≡ true → (o : Offer) → get g s ≡ some o → o.sidedness ≡ m
    key_eq e o = rw (← (==_iff n.capability.guid g).0 e) (side o)

    here :
        (if n.capability.guid == g then write (shift_sided m n.guid) (get g s) else get g s)
        ≡ write (shift (guids (Picked.chunnel n) g)) (get g s)
    here = elim (Bool-cases (n.capability.guid == g)) [
      | inl e ↦ rw (nz, e) (write-shift_sided m n.guid (get g s) (key_eq e))
      | inr e ↦ rw (nz, e) (sym (write-shift_zero (get g s)))
    ]

write_one_sided : (u : List Bytes) (x : ℕ) (o : Option Offer) → write (shift_sided (some u) x) o ≡ o
write_one_sided u x none = refl
write_one_sided u x (some v) = refl

-- Nothing is written where the capability is missing or one-sided.
pub kept-Shifts :
    (n : Negotiate) (u : List Bytes) (s : StackNonce)
    → (n.capability.guid == 0) ≡ false
    → ((o : Offer) → get n.capability.guid s ≡ some o → o.sidedness ≡ some u)
    → Shifts (guids (Picked.chunnel n)) s s
kept-Shifts n u s nz side g =
    sym (write_unchanged g)
    ∙ sym (get-update g n.capability.guid (shift_sided (some u) n.guid) s)
    ∙ update-Shifts n (some u) s nz side g
  where
    write_unchanged :
        (g : ℕ)
        → (if n.capability.guid == g
            then write (shift_sided (some u) n.guid) (get g s)
            else get g s)
          ≡ get g s
    write_unchanged g = elim (Bool-cases (n.capability.guid == g)) [
      | inl e ↦ rw e (write_one_sided u n.guid (get g s))
      | inr e ↦ rw e
    ]
