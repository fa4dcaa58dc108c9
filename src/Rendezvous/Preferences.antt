-- ===== src/Rendezvous/Preferences.antt =====
-- What `Prefer` leaves alone: a stack's offers and handles.
use tbm.Prelude.{ℕ, ◌≡◌, refl, ap₂, Bool, true, false, [], ◌∷◌, ◌++◌, Option, none, some}
use tbm.Negotiate.Types.{Side}
use tbm.Negotiate.Offers.{offers, merge_all}
use tbm.Rendezvous.Stacks.{
  UpgradeStack, chunnel, cx_list, select, upgrade_select, inner, collect_handles, or_else, chosen,
  prefer,
}

-- Two stacks that have the same offers and the same handles.
pub record SameChoices (s t : UpgradeStack) : Type 0 where
  pub same_offers : offers (inner s) ≡ offers (inner t)
  pub same_handles : collect_handles s ≡ collect_handles t

or_else-SameChoices :
    (first second : Bool × UpgradeStack) (a b : UpgradeStack)
    → SameChoices first.1 a
    → SameChoices second.1 b
    → SameChoices (or_else first b second).1 a × SameChoices (or_else first b second).2 b
or_else-SameChoices (true, x) second a b h k =
    (h, record { same_offers = refl; same_handles = refl })
or_else-SameChoices (false, x) (changed, y) a b h k = (h, k)

select-SameChoices :
    (handle : ℕ) (side : Side) (both : Bool × UpgradeStack × UpgradeStack) (o : Option Side)
    (l r : UpgradeStack)
    → SameChoices both.1 l
    → SameChoices both.2 r
    → SameChoices (chosen handle side both o).1 (upgrade_select handle l r side)
unfolding offers collect_handles
select-SameChoices handle side (changed, x, y) none l r h k = record {
  same_offers = ap₂ (λ xs ys. xs ++ ys) h.same_offers k.same_offers;
  same_handles = ap₂ (λ xs ys. (xs ++ ys) ++ handle ∷ []) h.same_handles k.same_handles;
}
select-SameChoices handle side (changed, x, y) (some opt) l r h k = record {
  same_offers = ap₂ (λ xs ys. xs ++ ys) h.same_offers k.same_offers;
  same_handles = ap₂ (λ xs ys. (xs ++ ys) ++ handle ∷ []) h.same_handles k.same_handles;
}

module _ (num_participants : ℕ) (selector : ℕ → ℕ → Option Side) where
  both_same :
      (a b : UpgradeStack)
      → SameChoices (prefer num_participants selector a).1 a
      → SameChoices (prefer num_participants selector b).1 b
      → SameChoices
          (or_else (prefer num_participants selector a) b (prefer num_participants selector b)).1
          a
        × SameChoices
            (or_else (prefer num_participants selector a) b (prefer num_participants selector b)).2
            b
  both_same a b h k =
      or_else-SameChoices (prefer num_participants selector a) (prefer num_participants selector b)
        a b h k

  -- Whatever the selector answers, the stack with its preferences has the offers and the handles that the
  -- stack had.
  pub prefer-SameChoices : (s : UpgradeStack) → SameChoices (prefer num_participants selector s).1 s
  unfolding prefer offers collect_handles
  prefer-SameChoices (chunnel n) = record { same_offers = refl; same_handles = refl }
  prefer-SameChoices (cx_list h t) =
      let (a, b) = both_same h t (prefer-SameChoices h) (prefer-SameChoices t) in
      record {
        same_offers = ap₂ merge_all a.same_offers b.same_offers;
        same_handles = ap₂ (λ xs ys. xs ++ ys) a.same_handles b.same_handles;
      }
  prefer-SameChoices (select l r side) =
      let (a, b) = both_same l r (prefer-SameChoices l) (prefer-SameChoices r) in
      record {
        same_offers = ap₂ (λ xs ys. xs ++ ys) a.same_offers b.same_offers;
        same_handles = ap₂ (λ xs ys. xs ++ ys) a.same_handles b.same_handles;
      }
  prefer-SameChoices (upgrade_select handle l r side) =
      let (a, b) = both_same l r (prefer-SameChoices l) (prefer-SameChoices r) in
      select-SameChoices handle side
        (or_else (prefer num_participants selector l) r (prefer num_participants selector r))
        (selector num_participants handle) l r a b
