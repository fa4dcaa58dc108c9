-- ===== src/Rendezvous/Handles.antt =====
-- `UpgradeHandle`: which stacks it can switch to, and the search for a full stack.
use tbm.Prelude.{
  ◌==◌, Bool, true, false, ◌&&◌, ◌||◌, List, [], ◌∷◌, ◌++◌, Option, none, some, if◌then◌else◌, get,
  all, length, find, Bytes, all_bytes_eq, Result, ok, err, eyre, Outcome, returns, panics,
}
use tbm.Negotiate.Types.{Offer, StackNonce, Side, left, right, Stack, have_all}
use tbm.Negotiate.Offers.{offers}
use tbm.Negotiate.Compare.{joint, two_sided_valid}

-- Equality of offers and of nonces, which are maps: the order of the entries does not count.
abbrev pub sidedness_eq : Option (List Bytes) → Option (List Bytes) → Bool
sidedness_eq none none = true
sidedness_eq (some x) (some y) = all_bytes_eq x y
sidedness_eq _ _ = false

abbrev pub offer_eq : Offer → Offer → Bool
offer_eq x y =
    (x.capability_guid == y.capability_guid && x.impl_guid == y.impl_guid)
    && (sidedness_eq x.sidedness y.sidedness && all_bytes_eq x.available y.available)

abbrev pub entry_eq : Offer → Option Offer → Bool
entry_eq x none = false
entry_eq x (some y) = offer_eq x y

unfoldable pub nonce_eq : StackNonce → StackNonce → Bool
nonce_eq xs ys = length xs == length ys && all (λ e. entry_eq e.1 (get e.0 ys)) xs

abbrev pub any : {A : Type 0} → (A → Bool) → List A → Bool
any p [] = false
any p (x ∷ xs) = p x || any p xs

-- The two cases of the loop of `stack_pair_partial_valid`; a capability that the server lacks is
-- only checked where it is one-sided.
abbrev pub two_sided_partial : Offer → Option Offer → Bool
two_sided_partial offer none = true
two_sided_partial offer (some srv) = two_sided_valid offer (some srv)

abbrev pub offer_partial : Option (List Bytes) → Offer → Option Offer → Bool
offer_partial (some univ) offer srv = have_all univ (joint offer srv)
offer_partial none offer srv = two_sided_partial offer srv

abbrev pub is_found : Option Offer → Bool
is_found none = false
is_found (some srv) = true

unfoldable pub stack_pair_partial_valid : StackNonce → StackNonce → Bool
stack_pair_partial_valid client server =
    if all (λ e. offer_partial e.1.sidedness e.1 (get e.0 server)) client
    then any (λ e. is_found (get e.0 server)) client
    else false

-- `current` and `triggered` are the values of the two watch channels: the side that the connection
-- uses, and the nonce that it was last told to switch to.
pub record UpgradeHandle : Type 0 where
  pub left_offers : List StackNonce
  pub right_offers : List StackNonce
  pub current : Option Side
  pub triggered : StackNonce

-- `UpgradeSelect::from_select`, for a `Select` of two stacks.
abbrev pub from_select : Stack → Stack → UpgradeHandle
from_select l r = record {
  left_offers = offers l;
  right_offers = offers r;
  current = none;
  triggered = [];
}

unfoldable pub check_compatibility : UpgradeHandle → StackNonce → Bool
check_compatibility uh new_stack =
    any (λ option. stack_pair_partial_valid new_stack option) (uh.left_offers ++ uh.right_offers)

-- `send_if_modified`
unfoldable pub switch_to_stack : StackNonce → UpgradeHandle → UpgradeHandle
switch_to_stack new_stack uh =
    if nonce_eq uh.triggered new_stack then uh else record uh { triggered = new_stack }

abbrev pub is_active : UpgradeHandle → Bool
is_active uh = elim uh.current [ none ↦ false | some side ↦ true ]

-- What `trigger_left` and `trigger_right` propose, if anything.
abbrev pub trigger : Side → Option Side → List StackNonce → Result (Option (List StackNonce))
trigger side none offers = err (eyre "Select is not active")
trigger left (some left) offers = ok none
trigger right (some right) offers = ok none
trigger side (some current) offers = ok (some offers)

unfoldable pub trigger_left : UpgradeHandle → Result (Option (List StackNonce))
trigger_left uh = trigger left uh.current uh.left_offers

unfoldable pub trigger_right : UpgradeHandle → Result (Option (List StackNonce))
trigger_right uh = trigger right uh.current uh.right_offers

-- The inner test of `find_stack_from_stub`: the stack has each implementation of the stub.
abbrev pub same_impl : Offer → Option Offer → Bool
same_impl offer none = false
same_impl offer (some o) = o.impl_guid == offer.impl_guid

abbrev pub extends_stub : StackNonce → StackNonce → Bool
extends_stub stack stub = all (λ e. same_impl e.1 (get e.0 stack)) stub

abbrev pub found : Option StackNonce → Outcome StackNonce
found none = panics
found (some stack) = returns (ok stack)

-- It ends in `unreachable!` where no stack extends a stub.
unfoldable pub find_stack_from_stub : List StackNonce → List StackNonce → Outcome StackNonce
find_stack_from_stub stub stacks =
    found (find (λ stack. any (λ s. extends_stub stack s) stub) stacks)
