-- ===== src/Negotiate/Pick/Checks.antt =====
-- What the two checks and the choice of a `Select` make of the picks that they are given.
use tbm.Prelude.{
  ℕ, ◌≡◌, ◌≢◌, refl, sym, ap, ◌∙◌, true, false, List, [], ◌∷◌, map, arith, get, Bool-cases, inl,
  inr, Memᴰ, filter_map, mem-filter_map, Result, ok, err, to_option, to_option-some, ◌⊎◌, all,
  ok-injective, >>=-eq-ok, mem-map, is_err, Report,
}
use tbm.Negotiate.Types.{OfferPair, Picked, Side, left, right, flip, other}
use tbm.Negotiate.Pick.{
  PickResult, pair_complete, pair_partial, remaining, touched_complete, two_sided_touched,
  check_touched_partial, check_touched_complete, pick_in_preference_order, pick_select,
  first_choice, second_choice, choose, first_left,
}

pub pair_partial-eq : (t : List ℕ) (q p : OfferPair) → pair_partial t q ≡ ok p → p ≡ q
unfolding pair_partial
pair_partial-eq t (c, s) p h = ground arith

-- A pair that the full check lets pass: the client's two-sided capabilities are touched, and
-- whatever is touched has been matched.
pub record Complete (t : List ℕ) (p : OfferPair) : Type 0 where
  pub touched : two_sided_touched t p.0 ≡ true
  pub matched : all (λ g. touched_complete (get g p.1) (get g p.0)) t ≡ true

pub pair_complete-eq :
    (t : List ℕ) (q p : OfferPair) → pair_complete t q ≡ ok p → (p ≡ q) × Complete t q
unfolding pair_complete
pair_complete-eq t (c, s) p h = elim (Bool-cases (two_sided_touched t c)) [
  | inl a ↦ elim (Bool-cases (all (λ g. touched_complete (get g s) (get g c)) t)) [
    | inl b ↦ (sym (ok-injective _ _ (rw (a, b) at h)), record { touched = a; matched = b })
    | inr b ↦ absurd (cc (rw (a, b) at h))
  ]
  | inr a ↦ absurd (cc (rw a at h))
]

-- What `remaining` keeps of a pick.
pub record Keeps (check : OfferPair → Result OfferPair) (pr r : PickResult) : Type 0 where
  pub stack : r.stack ≡ pr.stack
  pub touched : r.touched_cap_guids ≡ pr.touched_cap_guids
  pub pairs :
      (p : OfferPair)
      → Memᴰ p r.filtered_pairs
      → (q : OfferPair) × Memᴰ q pr.filtered_pairs × (check q ≡ ok p)
  pub nonempty : r.filtered_pairs ≢ []

not_all_err-ne :
    (rs : List (Result OfferPair)) → all is_err rs ≡ false → filter_map to_option rs ≢ []
not_all_err-ne [] h = λ e. cc
not_all_err-ne (ok p ∷ rs) h = λ e. cc
not_all_err-ne (err e ∷ rs) h = not_all_err-ne rs h

survivors :
    (check : OfferPair → Result OfferPair) (p : OfferPair) (ps : List OfferPair)
    → Memᴰ p (filter_map to_option (map check ps))
    → (q : OfferPair) × Memᴰ q ps × (check q ≡ ok p)
survivors check p ps m =
    let (r, there, e) = mem-filter_map to_option p (map check ps) m in
    let (q, source, f) = mem-map check r ps there in (q, source, sym f ∙ to_option-some r p e)

remaining-Keeps :
    (check : OfferPair → Result OfferPair) (pr r : PickResult)
    → remaining pr (map check pr.filtered_pairs) ≡ ok r
    → Keeps check pr r
unfolding remaining
remaining-Keeps check pr r h = elim (Bool-cases (all is_err (map check pr.filtered_pairs))) [
  | inl e ↦ absurd (cc (rw e at h))
  | inr e ↦
      let same = ok-injective _ _ (rw e at h) in
      let kept = ap (λ (x : PickResult). x.filtered_pairs) same in
      record {
        stack = sym (ap (λ (x : PickResult). x.stack) same);
        touched = sym (ap (λ (x : PickResult). x.touched_cap_guids) same);
        pairs = λ p m. survivors check p pr.filtered_pairs (rw (← kept) at m);
        nonempty = rw (← kept) (not_all_err-ne (map check pr.filtered_pairs) e);
      }
]

pub check_touched_partial-Keeps :
    (picked : Result PickResult) (r : PickResult)
    → check_touched_partial picked ≡ ok r
    → (pr : PickResult) × (picked ≡ ok pr) × Keeps (pair_partial pr.touched_cap_guids) pr r
unfolding check_touched_partial
check_touched_partial-Keeps (ok pr) r h = (pr, refl, remaining-Keeps _ pr r h)
check_touched_partial-Keeps (err e) r h = cc

pub check_touched_complete-Keeps :
    (picked : Result PickResult) (r : PickResult)
    → check_touched_complete picked ≡ ok r
    → (pr : PickResult) × (picked ≡ ok pr) × Keeps (pair_complete pr.touched_cap_guids) pr r
unfolding check_touched_complete
check_touched_complete-Keeps (ok pr) r h = (pr, refl, remaining-Keeps _ pr r h)
check_touched_complete-Keeps (err e) r h = cc

-- The result of a `Select` is that of one side, marked with the side.
abbrev pub Chosen : Side → Result PickResult → PickResult → Type 0
Chosen side checked r =
    (pr : PickResult) × (checked ≡ ok pr) × (r ≡ record pr { stack = Picked.either side pr.stack })

choose-Chosen :
    (side : Side) (pr r : PickResult) (ps : List OfferPair) (e : Report)
    → choose side pr ps e ≡ ok r
    → r ≡ record pr { stack = Picked.either side pr.stack }
choose-Chosen side pr r [] e h = cc
choose-Chosen side pr r (p ∷ ps) e h = sym (ok-injective _ _ h)

second-Chosen :
    (e : Report) (second : Result PickResult) (r : PickResult)
    → second_choice e second ≡ ok r
    → Chosen right second r
second-Chosen e (ok pr) r h = (pr, refl, choose-Chosen right pr r pr.filtered_pairs _ h)
second-Chosen e (err e') r h = cc

first_left-Chosen :
    (pr : PickResult) (ps : List OfferPair) (second : Result PickResult) (r : PickResult)
    → first_left pr ps second ≡ ok r
    → Chosen left (ok pr) r ⊎ Chosen right second r
first_left-Chosen pr [] second r h = inr (second-Chosen _ second r h)
first_left-Chosen pr (p ∷ ps) second r h = inl (pr, refl, sym (ok-injective _ _ h))

first_choice-Chosen :
    (first second : Result PickResult) (r : PickResult)
    → first_choice first second ≡ ok r
    → Chosen left first r ⊎ Chosen right second r
first_choice-Chosen (ok pr) second r h = first_left-Chosen pr pr.filtered_pairs second r h
first_choice-Chosen (err e) second r h = inr (second-Chosen _ second r h)

pick_in_preference_order-Chosen :
    (first second : Result PickResult) (r : PickResult)
    → pick_in_preference_order first second ≡ ok r
    → Chosen left (check_touched_partial first) r ⊎ Chosen right (check_touched_partial second) r
unfolding pick_in_preference_order
pick_in_preference_order-Chosen first second r h =
    first_choice-Chosen (check_touched_partial first) (check_touched_partial second) r h

flip-Chosen :
    (side : Side) (checked : Result PickResult) (r s : PickResult)
    → Chosen side checked r
    → s ≡ record r { stack = flip r.stack }
    → Chosen (other side) checked s
flip-Chosen side checked r s (pr, e, f) h =
    (pr, e, h ∙ ap (λ (x : PickResult). record x { stack = flip x.stack }) f)

-- Whichever side is preferred, the result is that of one side's partial check.
pub pick_select-Chosen :
    (prefer : Side) (l r : Result PickResult) (s : PickResult)
    → pick_select prefer l r ≡ ok s
    → Chosen left (check_touched_partial l) s ⊎ Chosen right (check_touched_partial r) s
pick_select-Chosen left l r s h = pick_in_preference_order-Chosen l r s h
pick_select-Chosen right l r s h =
    let (pr, e, f) = >>=-eq-ok (pick_in_preference_order r l) _ h in
    elim (pick_in_preference_order-Chosen r l pr e) [
      | inl c ↦ inr (flip-Chosen left _ pr s c (sym (ok-injective _ _ f)))
      | inr c ↦ inl (flip-Chosen right _ pr s c (sym (ok-injective _ _ f)))
    ]
