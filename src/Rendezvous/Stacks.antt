-- ===== src/Rendezvous/Stacks.antt =====
-- Stacks with `UpgradeSelect`s: the handles that they have, and the preferences that a selector sets.
use tbm.Prelude.{ℕ, Bool, true, false, List, [], ◌∷◌, ◌++◌, Option, none, some}
use tbm.Negotiate.Types.{Negotiate, Side, left, right, Stack}

-- An `UpgradeSelect` is a `Select` with the number of its handle.
pub data UpgradeStack : Type 0 where
  chunnel : Negotiate → UpgradeStack
  cx_list : UpgradeStack → UpgradeStack → UpgradeStack
  select : UpgradeStack → UpgradeStack → Side → UpgradeStack
  upgrade_select : ℕ → UpgradeStack → UpgradeStack → Side → UpgradeStack

-- The stack that `offers`, `pick` and `apply` are handed on to.
abbrev pub inner : UpgradeStack → Stack
inner (chunnel n) = Stack.chunnel n
inner (cx_list h t) = Stack.cx_list (inner h) (inner t)
inner (select l r prefer) = Stack.select (inner l) (inner r) prefer
inner (upgrade_select handle l r prefer) = Stack.select (inner l) (inner r) prefer

-- `CollectUpgradeHandles`
unfoldable pub collect_handles : UpgradeStack → List ℕ
collect_handles (chunnel n) = []
collect_handles (cx_list h t) = collect_handles h ++ collect_handles t
collect_handles (select l r prefer) = collect_handles l ++ collect_handles r
collect_handles (upgrade_select handle l r prefer) =
    (collect_handles l ++ collect_handles r) ++ handle ∷ []

abbrev pub differs : Side → Side → Bool
differs left right = true
differs right left = true
differs _ _ = false

-- `first.prefer(...) || second.prefer(...)`: where the first changes the second is not called.
abbrev pub or_else : {A B : Type 0} → Bool × A → B → Bool × B → Bool × A × B
or_else (true, a) b second = (true, a, b)
or_else (false, a) b (changed, b') = (changed, a, b')

abbrev pub chosen :
    ℕ → Side → Bool × UpgradeStack × UpgradeStack → Option Side → Bool × UpgradeStack
chosen handle prefer (changed, l, r) none = (changed, upgrade_select handle l r prefer)
chosen handle prefer (changed, l, r) (some opt) =
    (differs opt prefer, upgrade_select handle l r opt)

-- `Prefer`: whether a preference changed, and the stack with its preferences.
module _ (num_participants : ℕ) (selector : ℕ → ℕ → Option Side) where
  unfoldable pub prefer : UpgradeStack → Bool × UpgradeStack
  prefer (chunnel n) = (false, chunnel n)
  prefer (cx_list h t) =
      let (changed, h', t') = or_else (prefer h) t (prefer t) in (changed, cx_list h' t')
  prefer (select l r side) =
      let (changed, l', r') = or_else (prefer l) r (prefer r) in (changed, select l' r' side)
  prefer (upgrade_select handle l r side) =
      chosen handle side (or_else (prefer l) r (prefer r)) (selector num_participants handle)
