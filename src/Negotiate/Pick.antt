-- ===== src/Negotiate/Pick.antt =====
-- negotiate/pick.rs: a stack with choices becomes one without, and the offer pairs that do not fit it
-- are filtered out.
pub mod Pairs
pub mod Checks
pub mod Writes
use tbm.Prelude.{
  ℕ, ◌==◌, Bool, true, false, not, ◌||◌, List, [], ◌∷◌, ◌++◌, map, Option, none, some, bit_xor,
  if◌then◌else◌, get, update, contains_key, set_contains, union, all, Bytes, distinct, length,
  filter_map, Report, eyre, wrap_err, Result, ok, err, ◌>>=◌, wrap, is_err, to_option,
}
use tbm.Negotiate.Types.{
  Negotiate, Offer, StackNonce, OfferPair, Side, left, right, Stack, chunnel, absent, present,
  cx_list, select, Picked, flip, have_all,
}

pub record PickResult : Type 0 where
  pub stack : Picked
  pub filtered_pairs : List OfferPair
  pub touched_cap_guids : List ℕ

-- `offer.impl_guid ^= N::guid()`
abbrev pub toggle : ℕ → Offer → Offer
toggle guid o = record o { impl_guid = bit_xor o.impl_guid guid }

-- The client's offer against the server's two-sided one.
abbrev pub match_client : Negotiate → OfferPair → Offer → Option Offer → Option OfferPair
match_client n (client, server) offer none = none
match_client n (client, server) offer (some cl_of) =
    if not (have_all cl_of.available offer.available)
      || not (have_all offer.available cl_of.available)
    then none
    else some (client, update n.capability.guid (toggle n.guid) server)

abbrev pub match_sided : Option (List Bytes) → Negotiate → OfferPair → Offer → Option OfferPair
match_sided (some univ) n (client, server) offer = some (client, server)
match_sided none n (client, server) offer =
    match_client n (client, server) offer (get n.capability.guid client)

abbrev pub match_server : Negotiate → OfferPair → Option Offer → Option OfferPair
match_server n (client, server) none =
    if contains_key n.capability.guid client then none else some (client, server)
match_server n (client, server) (some offer) = match_sided offer.sidedness n (client, server) offer

-- The closure of the `filter_map` in `N`'s `pick`.
unfoldable pub pick_pair : Negotiate → OfferPair → Option OfferPair
pick_pair n (client, server) = match_server n (client, server) (get n.capability.guid server)

unfoldable pub pick_chunnel : Negotiate → List OfferPair → PickResult
pick_chunnel n pairs =
    if n.capability.guid == 0
    then record { stack = Picked.chunnel n; filtered_pairs = pairs; touched_cap_guids = [] }
    else record {
      stack = Picked.chunnel n;
      filtered_pairs = filter_map (pick_pair n) pairs;
      touched_cap_guids = n.capability.guid ∷ [];
    }

-- The capabilities of client and server together fill the universe: their number is compared.
abbrev pub fills : List Bytes → Offer → Option Offer → Bool
fills univ of none = length of.available == length univ
fills univ of (some cl_of) = length (distinct (cl_of.available ++ of.available)) == length univ

abbrev pub sided_matched : Option (List Bytes) → Offer → Option Offer → Bool
sided_matched (some univ) of cl_of = fills univ of cl_of
sided_matched none of cl_of = false

-- The `match` on the server's offer.
abbrev pub impl_matched : Offer → Option Offer → Bool
impl_matched of cl_of = if of.impl_guid == 0 then true else sided_matched of.sidedness of cl_of

abbrev pub touched_complete : Option Offer → Option Offer → Bool
touched_complete none cl_of = false
touched_complete (some of) cl_of = impl_matched of cl_of

-- `client_m.iter().all(...)`: what is two-sided for the client has been touched.
abbrev pub two_sided_touched : List ℕ → StackNonce → Bool
two_sided_touched touched client =
    all (λ e. elim e.1.sidedness [ some _ ↦ true | none ↦ set_contains touched e.0 ]) client

unfoldable pub pair_complete : List ℕ → OfferPair → Result OfferPair
pair_complete touched (client, server) =
    if two_sided_touched touched client
    then if all (λ t. touched_complete (get t server) (get t client)) touched
      then ok (client, server)
      else err (eyre "impls_matched")
    else err (eyre "missing touched guids")

abbrev pub touched_partial : Option Offer → Option Offer → Bool
touched_partial server none = false
touched_partial none (some cl_of) = true
touched_partial (some of) (some cl_of) = impl_matched of (some cl_of)

unfoldable pub pair_partial : List ℕ → OfferPair → Result OfferPair
pair_partial touched (client, server) =
    if all (λ t. touched_partial (get t server) (get t client)) touched
    then ok (client, server)
    else err (eyre "impls_matched")

-- `report = report.wrap_err(p.unwrap_err())`, over the pairs, none of which is valid.
abbrev pub wrap_all : Report → List (Result OfferPair) → Report
wrap_all report [] = report
wrap_all report (ok p ∷ rs) = wrap_all report rs
wrap_all report (err e ∷ rs) = wrap_all (wrap_err report e) rs

-- The common end of both checks.
unfoldable pub remaining : PickResult → List (Result OfferPair) → Result PickResult
remaining pr checked =
    if all is_err checked
    then err (wrap_all (eyre "No remaining valid (client, server) offer pairs") checked)
    else ok (record pr { filtered_pairs = filter_map to_option checked })

-- Both checks take the result of the `pick` that they begin with.
unfoldable pub check_touched_complete : Result PickResult → Result PickResult
check_touched_complete picked = do
  pr ← wrap "pick failed" picked
  remaining pr (map (pair_complete pr.touched_cap_guids) pr.filtered_pairs)

unfoldable pub check_touched_partial : Result PickResult → Result PickResult
check_touched_partial picked = do
  pr ← wrap "pick failed" picked
  remaining pr (map (pair_partial pr.touched_cap_guids) pr.filtered_pairs)

-- `!filtered_pairs.is_empty()`, with the choice in its `Either`.
abbrev pub choose : Side → PickResult → List OfferPair → Report → Result PickResult
choose side pr [] e = err e
choose side pr (p ∷ ps) e = ok (record pr { stack = Picked.either side pr.stack })

abbrev pub second_choice : Report → Result PickResult → Result PickResult
second_choice first_err (ok pr) =
    choose Side.right pr pr.filtered_pairs
      (wrap_err (eyre "both select sides not satisfied") first_err)
second_choice first_err (err e) =
    err (wrap_err (wrap_err e (eyre "second choice pick erred")) first_err)

abbrev pub first_left : PickResult → List OfferPair → Result PickResult → Result PickResult
first_left pr [] second = second_choice (eyre "first choice pick left no options") second
first_left pr (p ∷ ps) second = ok (record pr { stack = Picked.either Side.left pr.stack })

abbrev pub first_choice : Result PickResult → Result PickResult → Result PickResult
first_choice (ok pr) second = first_left pr pr.filtered_pairs second
first_choice (err e) second = second_choice (wrap_err e (eyre "first choice pick erred")) second

-- `pick_in_preference_order`, of the picks of the two sides.
unfoldable pub pick_in_preference_order : Result PickResult → Result PickResult → Result PickResult
pick_in_preference_order first second =
    first_choice (check_touched_partial first) (check_touched_partial second)

abbrev pub pick_select : Side → Result PickResult → Result PickResult → Result PickResult
pick_select left l r = pick_in_preference_order l r
pick_select right l r = do
  pr ← pick_in_preference_order r l
  ok (record pr { stack = flip pr.stack })

abbrev pub pick_list : PickResult → Result PickResult → Result PickResult
pick_list head tail = do
  pr ← wrap "CxList tail pick failed" tail
  ok (record pr {
    stack = Picked.cx_list head.stack pr.stack;
    touched_cap_guids = union head.touched_cap_guids pr.touched_cap_guids;
  })

unfoldable pub pick : Stack → List OfferPair → Result PickResult
pick (chunnel n) pairs = ok (pick_chunnel n pairs)
pick absent pairs =
    ok (record { stack = Picked.absent; filtered_pairs = pairs; touched_cap_guids = [] })
pick (present s) pairs = do pr ← pick s pairs; ok (record pr { stack = Picked.present pr.stack })
pick (cx_list h t) pairs = do
  head ← wrap "CxList head pick failed" (pick h pairs)
  pick_list head (pick t head.filtered_pairs)
pick (select l r prefer) pairs = pick_select prefer (pick l pairs) (pick r pairs)
