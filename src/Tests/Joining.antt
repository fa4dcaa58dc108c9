-- ===== src/Tests/Joining.antt =====
-- How an endpoint joins a connection and what its stack allows, after the tests of bertha/src/negotiate/rendezvous.rs.
use tbm.Prelude.{ℕ, [], ◌∷◌, Option, none, some, ok, Outcome, returns}
use tbm.Negotiate.Types.{Side, Picked}
use tbm.Rendezvous.Stacks.{UpgradeStack, chunnel, upgrade_select}
use tbm.Rendezvous.Start.{Rendezvoused, negotiate_rendezvous}
use tbm.Negotiate.Offers.{offers}
use tbm.Tests.Rendezvous.{Store, store, shared, first_nonce, second_nonce}
use tbm.Tests.Handshake.{tagger, other_tagger}

-- A stack with a choice of taggers that can be changed later.
abbrev left_stack : UpgradeStack
left_stack = chunnel tagger

abbrev right_stack : UpgradeStack
right_stack = chunnel other_tagger

abbrev upgradable : UpgradeStack
upgradable = upgrade_select 0 left_stack right_stack Side.left

abbrev prefer_right : ℕ → ℕ → Option Side
prefer_right num idx = some Side.right

abbrev connects : Picked → Outcome (Unit {0})
connects p = returns (ok tt)

abbrev joined_result : Rendezvoused
joined_result = record {
  joined = record {
    entry = first_nonce;
    applied = Picked.either Side.left (Picked.chunnel tagger);
    round_number = 0;
  };
  handles = 0 ∷ [];
  offers = first_nonce ∷ second_nonce ∷ [];
  num_participants = 2;
}

abbrev no_preference : ℕ → ℕ → Option Side
no_preference num idx = none

abbrev joining : Outcome Rendezvoused × Store
joining = negotiate_rendezvous store (ok []) connects no_preference upgradable shared
