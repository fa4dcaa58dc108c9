-- ===== src/Negotiate/Apply/Agreement.antt =====
-- What applying a nonce establishes: the applied stack has the implementations that the nonce names.
use tbm.Prelude.{
  ℕ, ◌==◌, ◌≡◌, refl, sym, ap, ◌∙◌, false, true, List, Option, none, some, get, write, subst, arith,
  Bytes, bit_xor, Result, ok, err, ok-injective, some-injective, update, >>=-eq-ok, all,
  all-contains, set_contains, Bool-cases, inl, inr, ◌⊎◌,
}
use mathlib.Core.Path.{fun_ext}
use tbm.Prelude.Xor.{xor-eq-zero}
use tbm.Negotiate.Types.{
  Negotiate, Offer, StackNonce, Stack, chunnel, absent, present, cx_list, select, Picked, Side,
  left, right, flip, other,
}
use tbm.Negotiate.Shift.{
  guids, shift, shift_sided, Shifts, Shifts-refl, Shifts-trans, update-Shifts,
}
use tbm.Negotiate.Apply.{
  ApplyResult, apply, apply_chunnel, apply_offer, check_apply, offer_applied, toggle_two_sided,
  apply_select, apply_in_preference_order, first_applied,
}

toggle-shift :
    (m : Option (List Bytes)) (x : ℕ) (o : Offer) → toggle_two_sided m x o ≡ shift_sided m x o
toggle-shift none x o = refl
toggle-shift (some u) x o = refl

-- The nonce that is left is the nonce given, shifted by the applied implementations.
abbrev pub Consumes : StackNonce → ApplyResult → Type 0
Consumes nonce r = Shifts (guids r.applied) nonce r.picked

-- A check lets its result pass as it is, with every touched capability applied.
pub check_apply-inv :
    (applied : Result ApplyResult) (r : ApplyResult)
    → check_apply applied ≡ ok r
    → (applied ≡ ok r) × (all (λ c. offer_applied (get c r.picked)) r.touched ≡ true)
unfolding check_apply
check_apply-inv (err e) r h = absurd (cc)
check_apply-inv (ok a) r h =
    elim (Bool-cases (all (λ c. offer_applied (get c a.picked)) a.touched)) [
      | inl e ↦
          let same = ok-injective a r (rw e at h) in
          (
            ap ok same,
            subst (λ (x : ApplyResult). all (λ c. offer_applied (get c x.picked)) x.touched ≡ true)
                same e,
          )
      | inr e ↦ absurd (cc (rw e at h))
    ]

-- The result of a `Select` is that of one side, marked with the side, but for its score.
abbrev pub Takes : Side → Result ApplyResult → ApplyResult → Type 0
Takes side checked r =
    (a : ApplyResult) × (checked ≡ ok a)
    × (r.applied ≡ Picked.either side a.applied)
    × (r.picked ≡ a.picked)
    × (r.touched ≡ a.touched)

first_applied-Takes :
    (first second : Result ApplyResult) (r : ApplyResult)
    → first_applied first second ≡ ok r
    → Takes left first r ⊎ Takes right second r
first_applied-Takes (ok a) second r h =
    let e = ok-injective _ _ h in
    inl (
      a,
      refl,
      sym (ap (λ (x : ApplyResult). x.applied) e),
      sym (ap (λ (x : ApplyResult). x.picked) e),
      sym (ap (λ (x : ApplyResult). x.touched) e),
    )
first_applied-Takes (err e) (ok a) r h =
    let e = ok-injective _ _ h in
    inr (
      a,
      refl,
      sym (ap (λ (x : ApplyResult). x.applied) e),
      sym (ap (λ (x : ApplyResult). x.picked) e),
      sym (ap (λ (x : ApplyResult). x.touched) e),
    )
first_applied-Takes (err e) (err f) r h = absurd (cc)

preference-Takes :
    (first second : Result ApplyResult) (r : ApplyResult)
    → apply_in_preference_order first second ≡ ok r
    → Takes left (check_apply first) r ⊎ Takes right (check_apply second) r
unfolding apply_in_preference_order
preference-Takes first second r h = first_applied-Takes (check_apply first) (check_apply second) r h

flip-Takes :
    (side : Side) (checked : Result ApplyResult) (r s : ApplyResult)
    → Takes side checked r
    → record r { applied = flip r.applied } ≡ s
    → Takes (other side) checked s
flip-Takes side checked r s (a, e, applied, picked, touched) h = (
  a,
  e,
  sym (ap (λ (x : ApplyResult). x.applied) h) ∙ ap flip applied,
  sym (ap (λ (x : ApplyResult). x.picked) h) ∙ picked,
  sym (ap (λ (x : ApplyResult). x.touched) h) ∙ touched,
)

pub apply_select-Takes :
    (prefer : Side) (l r : Result ApplyResult) (s : ApplyResult)
    → apply_select prefer l r ≡ ok s
    → Takes left (check_apply l) s ⊎ Takes right (check_apply r) s
apply_select-Takes left l r s h = preference-Takes l r s h
apply_select-Takes right l r s h =
    let (a, e, f) = >>=-eq-ok (apply_in_preference_order r l) _ h in
    elim (preference-Takes r l a e) [
      | inl c ↦ inr (flip-Takes left _ a s c (ok-injective _ _ f))
      | inr c ↦ inl (flip-Takes right _ a s c (ok-injective _ _ f))
    ]

offer-Consumes :
    (n : Negotiate) (nonce : StackNonce) (o : Option Offer) (r : ApplyResult)
    → (n.capability.guid == 0) ≡ false
    → get n.capability.guid nonce ≡ o
    → apply_offer n nonce o ≡ ok r
    → Consumes nonce r
offer-Consumes n nonce none r nz e h = absurd (cc)
offer-Consumes n nonce (some o) r nz e h = subst (Consumes nonce) (ok-injective _ _ h) (
    subst (λ f. Shifts (guids (Picked.chunnel n)) nonce (update n.capability.guid f nonce))
      (sym (fun_ext (toggle-shift o.sidedness n.guid)))
      (update-Shifts n o.sidedness nonce nz
        (λ v q. ap (λ (w : Offer). w.sidedness) (some-injective (sym q ∙ e)))))

chunnel-Consumes :
    (n : Negotiate) (nonce : StackNonce) (r : ApplyResult)
    → apply_chunnel n nonce ≡ ok r
    → Consumes nonce r
unfolding apply_chunnel
chunnel-Consumes n nonce r h = elim (Bool-cases (n.capability.guid == 0)) [
  | inl e ↦ subst (Consumes nonce) (ok-injective _ _ (rw e at h)) (Shifts-refl _ nonce (λ g. rw e))
  | inr e ↦ offer-Consumes n nonce (get n.capability.guid nonce) r e refl (rw e at h)
]

Takes-Consumes :
    (side : Side) (nonce : StackNonce) (applied : Result ApplyResult) (r : ApplyResult)
    → ((a : ApplyResult) → applied ≡ ok a → Consumes nonce a)
    → Takes side (check_apply applied) r
    → Consumes nonce r
Takes-Consumes side nonce applied r ih (a, e, same_stack, same_nonce, _) =
    let (from, _) = check_apply-inv applied a e in
    subst (λ x. Shifts x nonce r.picked) (sym (ap guids same_stack))
      (subst (Shifts (guids a.applied) nonce) (sym same_nonce) (ih a from))

pub apply-Consumes :
    (t : Stack) (nonce : StackNonce) (r : ApplyResult) → apply t nonce ≡ ok r → Consumes nonce r
unfolding apply
apply-Consumes (chunnel n) nonce r h = chunnel-Consumes n nonce r h
apply-Consumes absent nonce r h =
    subst (Consumes nonce) (ok-injective _ _ h) (Shifts-refl _ nonce (λ g. refl))
apply-Consumes (present s) nonce r h =
    let (a, e, f) = >>=-eq-ok (apply s nonce) _ h in
    subst (Consumes nonce) (ok-injective _ _ f) (apply-Consumes s nonce a e)
apply-Consumes (cx_list h t) nonce r p =
    let (head, e, f) = >>=-eq-ok (apply h nonce) _ p in
    let (tail, k, l) = >>=-eq-ok (apply t head.picked) _ f in
    subst (Consumes nonce) (ok-injective _ _ l) (
      Shifts-trans (guids head.applied) (guids tail.applied) nonce head.picked tail.picked
        (apply-Consumes h nonce head e) (apply-Consumes t head.picked tail k))
apply-Consumes (select l r prefer) nonce s h =
    elim (apply_select-Takes prefer (apply l nonce) (apply r nonce) s h) [
      | inl c ↦ Takes-Consumes left nonce (apply l nonce) s (apply-Consumes l nonce) c
      | inr c ↦ Takes-Consumes right nonce (apply r nonce) s (apply-Consumes r nonce) c
    ]

applied_zero :
    (x : ℕ) (o : Offer) (m : Option (List Bytes))
    → o.sidedness ≡ none
    → m ≡ none
    → offer_applied (some (shift_sided m x o)) ≡ true
    → bit_xor o.impl_guid x ≡ 0
applied_zero x o m side e h = ground arith

-- Where a checked `apply` succeeds, for a capability that it touched and that the nonce has as
-- two-sided: the implementation GUID of the nonce's offer is the exclusive or of the GUIDs of the
-- capability's implementations in the applied stack.
pub check_apply_agreement :
    (t : Stack) (nonce : StackNonce) (r : ApplyResult) (g : ℕ) (o : Offer)
    → check_apply (apply t nonce) ≡ ok r
    → set_contains r.touched g ≡ true
    → get g nonce ≡ some o
    → o.sidedness ≡ none
    → o.impl_guid ≡ guids r.applied g
check_apply_agreement t nonce r g o h touched at_g side =
    let (applied, checked) = check_apply-inv (apply t nonce) r h in
    let final = all-contains (λ c. offer_applied (get c r.picked)) r.touched g checked touched in
    let left_over =
      apply-Consumes t nonce r applied g ∙ ap (write (shift (guids r.applied g))) at_g in
    xor-eq-zero o.impl_guid (guids r.applied g) (
      applied_zero (guids r.applied g) o o.sidedness side side
        (subst (λ x. offer_applied x ≡ true) left_over final))
