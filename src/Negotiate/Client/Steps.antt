-- ===== src/Negotiate/Client/Steps.antt =====
-- One option received: whether it replaces the one that the client had taken.
use tbm.Prelude.{
  ℕ, ltb, ◌≤◌, ◌≡◌, refl, sym, ◌∙◌, true, false, ◌||◌, List, Memᴰ, Option, none, some, Result, ok,
  err, arith, Bool-cases, inl, inr, ◌⊎◌,
}
use tbm.Negotiate.Types.{StackNonce, Stack}
use tbm.Negotiate.Apply.{ApplyResult, apply, check_apply}
use tbm.Negotiate.Client.{Chosen, Selection, consider}

-- An option that the check lets pass, with its result.
abbrev pub Applies : Stack → StackNonce → ApplyResult → Type 0
Applies stack p ar = check_apply (apply stack p) ≡ ok ar

-- The choice comes from an option that applies, with the score that is kept.
abbrev pub ChosenFrom : Stack → List StackNonce → Chosen → ℕ → Type 0
ChosenFrom stack ps c sc =
    Memᴰ c.nonce ps
    × ((ar : ApplyResult) × Applies stack c.nonce ar × (c.applied ≡ ar.applied) × (ar.score ≡ sc))

-- Until an option is taken the score is 0.
abbrev pub Started : Selection → Type 0
Started s = s.applied ≡ none → s.sc ≡ 0

abbrev pub Taken : Selection → Type 0
Taken s = (c : Chosen) × (s.applied ≡ some c)

pub record Grows (s r : Selection) : Type 0 where
  pub started : Started r
  pub score : s.sc ≤ r.sc
  pub taken : Taken s → Taken r

-- One option either replaces what was taken or leaves it.
abbrev pub Replaces : StackNonce → ApplyResult → Selection → Selection → Type 0
Replaces p ar s r =
    (r.applied ≡ some (record { applied = ar.applied; nonce = p }))
    × (r.sc ≡ ar.score)
    × (Started s → s.sc ≤ ar.score)

abbrev pub Leaves : Selection → Selection → Type 0
Leaves s r = (r.applied ≡ s.applied) × (r.sc ≡ s.sc)

pub starts-le :
    (o : Option Chosen) (a b : ℕ)
    → (ltb a b || elim o [ none ↦ true | some c ↦ false ]) ≡ true
    → (o ≡ none → a ≡ 0)
    → a ≤ b
starts-le none a b h z = omega (arith, z refl)
starts-le (some c) a b h z = ground arith

pub stays-le :
    (o : Option Chosen) (a b : ℕ)
    → (ltb a b || elim o [ none ↦ true | some c ↦ false ]) ≡ false
    → (b ≤ a) × ((c : Chosen) × (o ≡ some c))
stays-le none a b h = absurd (ground arith)
stays-le (some c) a b h = (ground arith, (c, refl))

pub consider-cases :
    (p : StackNonce) (ar : ApplyResult) (s : Selection)
    → Replaces p ar s (consider p (ok ar) s)
      ⊎ (Leaves s (consider p (ok ar) s) × (ar.score ≤ s.sc) × Taken s)
unfolding consider
consider-cases p ar s =
    elim (Bool-cases (ltb s.sc ar.score || elim s.applied [ none ↦ true | some c ↦ false ])) [
      | inl e ↦ inl (rw e (refl, refl, starts-le s.applied s.sc ar.score e))
      | inr e ↦
          let (le, taken) = stays-le s.applied s.sc ar.score e in
          inr (rw e ((refl, refl), le, taken))
    ]

pub Leaves-Grows : (s r : Selection) → Started s → Leaves s r → Grows s r
Leaves-Grows s r z (applied, sc) = record {
  started = λ e. sc ∙ z (sym applied ∙ e);
  score = omega (arith, sc);
  taken = λ (c, e). (c, applied ∙ e);
}

pub Replaces-Grows :
    (p : StackNonce) (ar : ApplyResult) (s r : Selection)
    → Started s
    → Replaces p ar s r
    → Grows s r
Replaces-Grows p ar s r z (applied, sc, le) = record {
  started = λ e. absurd (cc (applied, e));
  score = omega (arith, sc, le z);
  taken = λ _. (_, applied);
}

pub consider-Grows :
    (p : StackNonce) (res : Result ApplyResult) (s : Selection)
    → Started s
    → Grows s (consider p res s)
unfolding consider
consider-Grows p (err e) s z = record { started = z; score = omega arith; taken = λ t. t }
consider-Grows p (ok ar) s z = elim (consider-cases p ar s) [
  | inl c ↦ Replaces-Grows p ar s _ z c
  | inr (l, _, _) ↦ Leaves-Grows s _ z l
]

pub consider-covers :
    (p : StackNonce) (ar : ApplyResult) (s : Selection)
    → (ar.score ≤ (consider p (ok ar) s).sc) × Taken (consider p (ok ar) s)
consider-covers p ar s = elim (consider-cases p ar s) [
  | inl (applied, sc, _) ↦ (omega (arith, sc), (_, applied))
  | inr ((applied, sc), le, (c, e)) ↦ (omega (arith, sc, le), (c, applied ∙ e))
]
