-- ===== src/Rendezvous/Search.antt =====
-- The search of `handle_trigger` for a full stack.
use tbm.Prelude.{List}
use tbm.Negotiate.Types.{StackNonce, Side, left, right}
use tbm.Negotiate.Offers.{offers}
use tbm.Rendezvous.Stacks.{UpgradeStack, inner}

-- The offers of a side of an `UpgradeSelect`, as its handle has them.
abbrev pub side_offers : Side → UpgradeStack → UpgradeStack → List StackNonce
side_offers left l r = offers (inner l)
side_offers right l r = offers (inner r)
