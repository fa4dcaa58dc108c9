-- ===== src/Negotiate/Client/Choice.antt =====
-- Which of the options received a client takes.
use tbm.Prelude.{
  some-injective, ◌≤◌, ◌≡◌, refl, sym, ap, ◌∙◌, subst, List, [], ◌∷◌, Memᴰ, Option, none, some,
  Result, ok, eyre, wrap_err, err, wrap, ok-injective, arith, inl, inr, ◌⊎◌,
}
use tbm.Negotiate.Types.{StackNonce, Stack}
use tbm.Negotiate.Apply.{ApplyResult, apply, check_apply}
use tbm.Negotiate.Client.{
  Chosen, Selection, consider, select_option, choose_option, or_default, first_selection, selected,
}
use tbm.Negotiate.Client.Steps.{
  Applies, ChosenFrom, Started, Taken, Grows, Leaves, consider-cases, consider-Grows,
  consider-covers,
}

abbrev try_option : Stack → StackNonce → Selection → Selection
try_option stack p s =
    consider p (wrap "Could not apply received impls to stack" (check_apply (apply stack p))) s

try_option-covers :
    (stack : Stack) (p : StackNonce) (ar : ApplyResult) (s : Selection)
    → Applies stack p ar
    → (ar.score ≤ (try_option stack p s).sc) × Taken (try_option stack p s)
try_option-covers stack p ar s h = rw h (consider-covers p ar s)

-- The loop only raises the score, and keeps a choice.
select_option-Grows :
    (stack : Stack) (ps : List StackNonce) (s : Selection)
    → Started s
    → Grows s (select_option stack ps s)
unfolding select_option
select_option-Grows stack [] s z = record { started = z; score = omega arith; taken = λ t. t }
select_option-Grows stack (p ∷ ps) s z =
    let first = consider-Grows p (wrap _ (check_apply (apply stack p))) s z in
    let rest = select_option-Grows stack ps (try_option stack p s) first.started in
    record {
      started = rest.started;
      score = omega (arith, first.score, rest.score);
      taken = λ t. rest.taken (first.taken t);
    }

select_option-covers :
    (stack : Stack) (ps : List StackNonce) (s : Selection) (p : StackNonce) (ar : ApplyResult)
    → Started s
    → Memᴰ p ps
    → Applies stack p ar
    → (ar.score ≤ (select_option stack ps s).sc) × Taken (select_option stack ps s)
unfolding select_option
select_option-covers stack [] s p ar z m h = elim m [ ]
select_option-covers stack (q ∷ ps) s p ar z (Memᴰ.head e) h =
    let first = consider-Grows q (wrap _ (check_apply (apply stack q))) s z in
    let rest = select_option-Grows stack ps (try_option stack q s) first.started in
    let (le, t) = try_option-covers stack q ar s (subst (λ x. Applies stack x ar) e h) in
    (omega (arith, le, rest.score), rest.taken t)
select_option-covers stack (q ∷ ps) s p ar z (Memᴰ.tail m) h =
    select_option-covers stack ps (try_option stack q s) p ar
      (consider-Grows q (wrap _ (check_apply (apply stack q))) s z).started m h

-- What the loop ends with is what it began with, or comes from an option.
abbrev From : Stack → List StackNonce → Selection → Selection → Type 0
From stack ps s r = Leaves s r ⊎ ((c : Chosen) × (r.applied ≡ some c) × ChosenFrom stack ps c r.sc)

consider-From :
    (stack : Stack) (p : StackNonce) (ps : List StackNonce) (s : Selection)
    (checked : Result ApplyResult)
    → check_apply (apply stack p) ≡ checked
    → From stack (p ∷ ps) s (consider p (wrap "Could not apply received impls to stack" checked) s)
unfolding consider
consider-From stack p ps s (err e) h = inl (refl, refl)
consider-From stack p ps s (ok ar) h = elim (consider-cases p ar s) [
  | inl (applied, sc, _) ↦ inr (_, applied, (Memᴰ.head refl, (ar, h, refl, sym sc)))
  | inr (l, _, _) ↦ inl l
]

From-trans :
    (stack : Stack) (p : StackNonce) (ps : List StackNonce) (s m r : Selection)
    → From stack (p ∷ ps) s m
    → From stack ps m r
    → From stack (p ∷ ps) s r
From-trans stack p ps s m r first (inr (c, e, (there, from))) = inr (c, e, (Memᴰ.tail there, from))
From-trans stack p ps s m r (inl (a, b)) (inl (c, d)) = inl (c ∙ a, d ∙ b)
From-trans stack p ps s m r (inr (k, e, (here, (ar, h, applied, sc)))) (inl (c, d)) =
    inr (k, c ∙ e, (here, (ar, h, applied, sc ∙ sym d)))

select_option-From :
    (stack : Stack) (ps : List StackNonce) (s : Selection)
    → From stack ps s (select_option stack ps s)
unfolding select_option
select_option-From stack [] s = inl (refl, refl)
select_option-From stack (p ∷ ps) s =
    From-trans stack p ps s (try_option stack p s) (select_option stack ps (try_option stack p s))
      (consider-From stack p ps s (check_apply (apply stack p)) refl)
      (select_option-From stack ps (try_option stack p s))

selected-inv : (s : Selection) (c : Chosen) → selected s ≡ ok c → s.applied ≡ some c
selected-inv s c h = of_applied s.applied h
  where
    of_applied :
        (o : Option Chosen)
        → elim o [
          | none ↦ err (wrap_err s.apply_err (eyre "All received options failed to apply"))
          | some k ↦ ok k
        ]
          ≡ ok c
        → o ≡ some c
    of_applied none h = absurd (cc)
    of_applied (some k) h = ap some (ok-injective k c h)

-- What is known of the stack that a client takes.
pub record Origin (stack : Stack) (picked : List StackNonce) (c : Chosen) : Type 0 where
  pub ar : ApplyResult
  pub there : Memᴰ c.nonce (or_default picked)
  pub applies : check_apply (apply stack c.nonce) ≡ ok ar
  pub same : c.applied ≡ ar.applied
  pub score : ar.score ≡ (select_option stack (or_default picked) first_selection).sc

pub choose_option-inv :
    (stack : Stack) (picked : List StackNonce) (c : Chosen)
    → choose_option stack picked ≡ ok c
    → Origin stack picked c
unfolding choose_option
choose_option-inv stack picked c h =
    let ps = or_default picked in
    let e = selected-inv (select_option stack ps first_selection) c h in
    elim (select_option-From stack ps first_selection) [
      | inl (same, _) ↦ absurd (cc (same, e))
      | inr (k, f, (here, (ar, applies, applied, sc))) ↦
          let k≡c = some-injective (sym f ∙ e) in
          record {
            ar = ar;
            there = subst (λ (x : Chosen). Memᴰ x.nonce ps) k≡c here;
            applies = subst (λ (x : Chosen). Applies stack x.nonce ar) k≡c applies;
            same = sym (ap (λ (x : Chosen). x.applied) k≡c) ∙ applied;
            score = sc;
          }
    ]

-- The stack that a client takes is one of the options received, or the empty nonce where none were,
-- applied with its check; and no option that applies has a higher score.
pub choose_option-best :
    (stack : Stack) (picked : List StackNonce) (c : Chosen) (p : StackNonce) (other : ApplyResult)
    → choose_option stack picked ≡ ok c
    → Memᴰ p (or_default picked)
    → check_apply (apply stack p) ≡ ok other
    → Memᴰ c.nonce (or_default picked)
      × ((ar : ApplyResult) × (check_apply (apply stack c.nonce) ≡ ok ar)
          × (c.applied ≡ ar.applied)
          × (other.score ≤ ar.score))
choose_option-best stack picked c p other h m a =
    let k = choose_option-inv stack picked c h in
    let (le, _) =
      select_option-covers stack (or_default picked) first_selection p other (λ _. refl) m a in
    (k.there, (k.ar, k.applies, k.same, omega (arith, k.score, le)))

-- Where an option received applies (or the empty nonce, if none were received) the client takes some
-- stack, whatever the others fail with.
pub choose_option-accepts :
    (stack : Stack) (picked : List StackNonce) (p : StackNonce) (ar : ApplyResult)
    → Memᴰ p (or_default picked)
    → check_apply (apply stack p) ≡ ok ar
    → (c : Chosen) × (choose_option stack picked ≡ ok c)
unfolding choose_option
choose_option-accepts stack picked p ar m h =
    let (_, (c, e)) =
      select_option-covers stack (or_default picked) first_selection p ar (λ _. refl) m h in
    (c, rw e)
