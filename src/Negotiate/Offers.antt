-- ===== src/Negotiate/Offers.antt =====
-- negotiate/get_offers.rs: the stacks that a stack could produce, one nonce for each.
pub mod Count
pub mod Keys
use tbm.Prelude.{
  ℕ, ◌==◌, List, [], ◌∷◌, ◌++◌, map, Option, none, some, bit_xor, if◌then◌else◌, get, insert,
  update,
}
use tbm.Negotiate.Types.{
  Negotiate, Offer, StackNonce, Stack, chunnel, absent, present, cx_list, select,
}

-- `bincode::serialize(..).unwrap()` of the universe and of the capabilities is where `Negotiate` is made:
-- it has them serialised.
unfoldable pub get_offer : Negotiate → Option Offer
get_offer n =
    if n.capability.guid == 0
    then none
    else some (record {
      capability_guid = n.capability.guid;
      impl_guid = n.guid;
      sidedness = n.capability.universe;
      available = n.capabilities;
    })

abbrev pub chunnel_nonce : Option Offer → Negotiate → StackNonce
chunnel_nonce none n = []
chunnel_nonce (some o) n = insert n.capability.guid o []

-- `ent.impl_guid ^= o.impl_guid; ent.available.extend(o.available)`
abbrev pub absorb : Offer → Offer → Offer
absorb o ent = record ent {
  impl_guid = bit_xor ent.impl_guid o.impl_guid;
  available = ent.available ++ o.available;
}

abbrev pub merge_entry : ℕ → Offer → Option Offer → StackNonce → StackNonce
merge_entry guid o none r = insert guid o r
merge_entry guid o (some ent) r = update guid (absorb o) r

unfoldable pub merge : StackNonce → StackNonce → StackNonce
merge [] r = r
merge ((guid, o) ∷ l) r = merge l (merge_entry guid o (get guid r) r)

-- The two loops of `CxList`'s `offers`: the tail's options outside, the head's inside.
unfoldable pub merge_all : List StackNonce → List StackNonce → List StackNonce
merge_all heads [] = []
merge_all heads (t ∷ tails) = map (λ h. merge h t) heads ++ merge_all heads tails

unfoldable pub offers : Stack → List StackNonce
offers (chunnel n) = chunnel_nonce (get_offer n) n ∷ []
offers absent = []
offers (present s) = offers s
offers (cx_list h t) = merge_all (offers h) (offers t)
offers (select l r p) = offers l ++ offers r
