-- ===== src/Negotiate/Compare.antt =====
-- negotiate/server.rs, `stack_pair_valid` and `compare_offers`: which client and server stacks match.
pub mod Members
use tbm.Prelude.{
  ◌==◌, Bool, false, not, ◌||◌, List, [], ◌∷◌, ◌++◌, Option, none, some, if◌then◌else◌, get, all,
  Bytes,
}
use tbm.Negotiate.Types.{Offer, StackNonce, OfferPair, have_all}

-- `joint`: what the client has, extended by what the server has.
abbrev pub joint : Offer → Option Offer → List Bytes
joint offer none = offer.available
joint offer (some srv) = offer.available ++ srv.available

-- The two-sided case: the server has the same implementations and the same set.
abbrev pub two_sided_valid : Offer → Option Offer → Bool
two_sided_valid offer none = false
two_sided_valid offer (some srv) = not (
    not (offer.impl_guid == srv.impl_guid)
    || not (have_all offer.available srv.available)
    || not (have_all srv.available offer.available))

abbrev pub offer_valid : Option (List Bytes) → Offer → Option Offer → Bool
offer_valid (some univ) offer srv = have_all univ (joint offer srv)
offer_valid none offer srv = two_sided_valid offer srv

unfoldable pub stack_pair_valid : StackNonce → StackNonce → Bool
stack_pair_valid client server = all (λ e. offer_valid e.1.sidedness e.1 (get e.0 server)) client

-- The inner loop, over the server's candidates.
unfoldable pub compare_server : StackNonce → List StackNonce → List OfferPair
compare_server c [] = []
compare_server c (s ∷ server) =
    if stack_pair_valid c s then (c, s) ∷ compare_server c server else compare_server c server

unfoldable pub compare_offers : List StackNonce → List StackNonce → List OfferPair
compare_offers [] server = []
compare_offers (c ∷ client) server = compare_server c server ++ compare_offers client server
