-- ===== src/Negotiate/Types.antt =====
-- The data of the negotiation: offers and nonces (negotiate/get_offers.rs, negotiate/mod.rs), a stack
-- of chunnels as a value in place of the nested Rust types, and a stack without choices.
use tbm.Prelude.{ℕ, Bool, List, Option, Bytes, all, contains}

-- `CapabilitySet`: a type of capabilities, with its universe in serialised form.
pub record CapabilitySet : Type 0 where
  pub guid : ℕ
  pub universe : Option (List Bytes)

-- `Negotiate`: a chunnel's implementation, with its capabilities in serialised form.
pub record Negotiate : Type 0 where
  pub capability : CapabilitySet
  pub guid : ℕ
  pub capabilities : List Bytes

-- `Offer`. `sidedness` is `none` for a capability that both sides must have alike.
pub record Offer : Type 0 where
  pub capability_guid : ℕ
  pub impl_guid : ℕ
  pub sidedness : Option (List Bytes)
  pub available : List Bytes

abbrev pub StackNonce : Type 0
StackNonce = List (ℕ × Offer)

-- `Either<(), ()>`, the preference of a `Select`.
pub data Side : Type 0 where
  left right : Side

-- A stack: one implementation, an `Option`, a `CxList` or a `Select`.
pub data Stack : Type 0 where
  chunnel : Negotiate → Stack
  absent : Stack
  present : Stack → Stack
  cx_list : Stack → Stack → Stack
  select : Stack → Stack → Side → Stack

-- What picking or applying leaves of a stack: a `Select` has become an `Either`.
pub data Picked : Type 0 where
  chunnel : Negotiate → Picked
  absent : Picked
  present : Picked → Picked
  cx_list : Picked → Picked → Picked
  either : Side → Picked → Picked

abbrev pub other : Side → Side
other left = right
other right = left

-- `FlipEither::flip`
abbrev pub flip : Picked → Picked
flip (either s p) = either (other s) p
flip p = p

-- `StackNonce` pairs of (client, server).
abbrev pub OfferPair : Type 0
OfferPair = StackNonce × StackNonce

-- Every item of the first list is in the second.
abbrev pub have_all : List Bytes → List Bytes → Bool
have_all univ joint = all (contains joint) univ
