-- ===== src/Negotiate/Monomorphize/Agreement.antt =====
-- What the handshake establishes of the GUIDs of the implementations, and of the stacks in the reply.
use tbm.Prelude.{
  ℕ, ◌≡◌, refl, sym, ap, ◌∙◌, true, List, map, Memᴰ, Option, none, some, get, write, subst, arith,
  Bytes, bit_xor, Result, ok, err, wrap-eq-ok, returns, all-mem, all-contains, mem-map, mem_of_get,
  set_contains,
}
use tbm.Prelude.Xor.{xor-eq-zero}
use tbm.Negotiate.Types.{Offer, StackNonce, Stack}
use tbm.Negotiate.Offers.{offers}
use tbm.Negotiate.Offers.Keys.{HasSidedness, offers-Sidedness}
use tbm.Negotiate.Compare.{stack_pair_valid, compare_offers, two_sided_valid}
use tbm.Negotiate.Compare.Members.{mem-compare_offers}
use tbm.Negotiate.Shift.{guids, shift, shift_sided, Shifts}
use tbm.Negotiate.Pick.{
  PickResult, pick, check_touched_complete, touched_complete, two_sided_touched, impl_matched,
}
use tbm.Negotiate.Pick.Checks.{Complete}
use tbm.Negotiate.Pick.Writes.{check_touched_complete-Written}
use tbm.Negotiate.Monomorphize.{
  Monomorphized, monomorphize, finish, choose_server, with_choice, pop, check_possibilities,
}

-- The picks behind a handshake that succeeds.
record Handshake (stack : Stack) (client : List StackNonce) (m : Monomorphized) : Type 0 where
  pr : PickResult
  checked : check_touched_complete (pick stack (compare_offers client (offers stack))) ≡ ok pr
  new_stack : m.new_stack ≡ pr.stack
  picked_offers : m.picked_offers ≡ map (λ p. p.0) pr.filtered_pairs

-- The result of a pick, as the handshake reports it.
abbrev Reports : PickResult → Monomorphized → Type 0
Reports pr m = (m.new_stack ≡ pr.stack) × (m.picked_offers ≡ map (λ p. p.0) pr.filtered_pairs)

returned : (a b : Monomorphized) → returns (ok a) ≡ returns (ok b) → a ≡ b
returned a b h = cc

with_choice-Reports :
    (pr : PickResult) (choice : Option StackNonce) (addr : Result Bytes) (m : Monomorphized)
    → with_choice pr choice addr ≡ returns (ok m)
    → Reports pr m
with_choice-Reports pr none addr m h = absurd (cc)
with_choice-Reports pr (some c) (err e) m h = absurd (cc)
with_choice-Reports pr (some c) (ok a) m h =
    let e = returned _ m h in
    (
      sym (ap (λ (x : Monomorphized). x.new_stack) e),
      sym (ap (λ (x : Monomorphized). x.picked_offers) e),
    )

choose_server-Reports :
    (pr : PickResult) (ps : List StackNonce) (s : Option StackNonce) (addr : Result Bytes)
    (m : Monomorphized)
    → choose_server pr ps s addr ≡ returns (ok m)
    → Reports pr m
choose_server-Reports pr ps none addr m h = absurd (cc)
choose_server-Reports pr ps (some s) addr m h =
    with_choice-Reports pr (check_possibilities s ps) addr m h

finish-Reports :
    (ps : List StackNonce) (checked : Result PickResult) (addr : Result Bytes) (m : Monomorphized)
    → finish ps checked addr ≡ returns (ok m)
    → (pr : PickResult) × (checked ≡ ok pr) × Reports pr m
finish-Reports ps (err e) addr m h = absurd (cc)
finish-Reports ps (ok pr) addr m h =
    (pr, refl, choose_server-Reports pr ps (pop pr.filtered_pairs) addr m h)

monomorphize-Handshake :
    (stack : Stack) (client : List StackNonce) (addr : Result Bytes) (m : Monomorphized)
    → monomorphize stack client addr ≡ returns (ok m)
    → Handshake stack client m
unfolding monomorphize
monomorphize-Handshake stack client addr m h =
    let (pr, e, reports) = finish-Reports (offers stack) _ addr m h in
    record { pr = pr; checked = wrap-eq-ok _ _ e; new_stack = reports.0; picked_offers = reports.1 }

-- A client's stack that the reply names, with the server's stack that it was picked against.
record Matched (stack : Stack) (client : List StackNonce) (m : Monomorphized) (c : StackNonce)
    : Type 0 where
  server : StackNonce
  written : StackNonce
  touched : List ℕ
  offered : Memᴰ c client
  possible : Memᴰ server (offers stack)
  valid : stack_pair_valid c server ≡ true
  shifts : Shifts (guids m.new_stack) server written
  complete : Complete touched (c, written)

reply-Matched :
    (stack : Stack) (client : List StackNonce) (addr : Result Bytes) (m : Monomorphized)
    (c : StackNonce)
    → monomorphize stack client addr ≡ returns (ok m)
    → Memᴰ c m.picked_offers
    → Matched stack client m c
reply-Matched stack client addr m c h i =
    let k = monomorphize-Handshake stack client addr m h in
    let (p, there, e) = mem-map (λ p. p.0) c k.pr.filtered_pairs (rw k.picked_offers at i) in
    let ((server, source, shifts), complete) =
      check_touched_complete-Written stack _ k.pr k.checked p there in
    let (offered, possible, valid) =
      (mem-compare_offers client (offers stack) (p.0, server)).0 source in
    record {
      server = server;
      written = p.1;
      touched = k.pr.touched_cap_guids;
      offered = subst (λ x. Memᴰ x client) (sym e) offered;
      possible = possible;
      valid = subst (λ x. stack_pair_valid x server ≡ true) (sym e) valid;
      shifts = subst (λ x. Shifts (guids x) server p.1) (sym k.new_stack) shifts;
      complete = subst (λ x. Complete k.pr.touched_cap_guids (x, p.1)) (sym e) complete;
    }

two_sided_valid-inv :
    (oc : Offer) (srv : Option Offer)
    → two_sided_valid oc srv ≡ true
    → (os : Offer) × (srv ≡ some os) × (oc.impl_guid ≡ os.impl_guid)
two_sided_valid-inv oc none h = absurd (cc)
two_sided_valid-inv oc (some os) h = (os, refl, ground arith)

offer_valid-inv :
    (g : ℕ) (oc : Offer) (c s : StackNonce)
    → stack_pair_valid c s ≡ true
    → get g c ≡ some oc
    → oc.sidedness ≡ none
    → (os : Offer) × (get g s ≡ some os) × (oc.impl_guid ≡ os.impl_guid)
unfolding stack_pair_valid
offer_valid-inv g oc c s v at_g side =
    two_sided_valid-inv oc (get g s) (rw side at (all-mem _ (g, oc) c v (mem_of_get g oc c at_g)))

is_touched :
    (g : ℕ) (oc : Offer) (c : StackNonce) (t : List ℕ)
    → two_sided_touched t c ≡ true
    → get g c ≡ some oc
    → oc.sidedness ≡ none
    → set_contains t g ≡ true
is_touched g oc c t h at_g side = rw side at (all-mem _ (g, oc) c h (mem_of_get g oc c at_g))

matched_zero :
    (x : ℕ) (os : Offer) (m : Option (List Bytes)) (cl : Option Offer)
    → os.sidedness ≡ none
    → m ≡ none
    → impl_matched (shift_sided m x os) cl ≡ true
    → bit_xor os.impl_guid x ≡ 0
matched_zero x os m cl side e h = ground arith

written_guid :
    (g x : ℕ) (os : Offer) (s' : Option Offer) (cl : Option Offer)
    → os.sidedness ≡ none
    → s' ≡ write (shift x) (some os)
    → touched_complete s' cl ≡ true
    → os.impl_guid ≡ x
written_guid g x os s' cl side e h =
    xor-eq-zero os.impl_guid x (matched_zero x os os.sidedness cl side side (rw e at h))

-- After a handshake that succeeds, for a capability that a client stack which the reply names has as
-- two-sided: the implementation GUID of the client's offer is the exclusive or of the GUIDs of the
-- capability's implementations in the server's new stack, if the server's stack declares the capability
-- as two-sided wherever it has it.
pub monomorphize_agreement :
    (stack : Stack) (client : List StackNonce) (addr : Result Bytes) (m : Monomorphized)
    (c : StackNonce) (g : ℕ) (oc : Offer)
    → monomorphize stack client addr ≡ returns (ok m)
    → Memᴰ c m.picked_offers
    → get g c ≡ some oc
    → oc.sidedness ≡ none
    → HasSidedness g none stack
    → oc.impl_guid ≡ guids m.new_stack g
monomorphize_agreement stack client addr m c g oc h i at_g side has =
    let k = reply-Matched stack client addr m c h i in
    let (os, at_s, same) = offer_valid-inv g oc c k.server k.valid at_g side in
    let t = is_touched g oc c k.touched k.complete.touched at_g side in
    let final =
      all-contains (λ j. touched_complete (get j k.written) (get j c)) k.touched g
        k.complete.matched t in
    same
    ∙ written_guid g (guids m.new_stack g) os (get g k.written) (get g c)
        (offers-Sidedness g none stack has k.server k.possible os at_s)
        (k.shifts g ∙ ap (write (shift (guids m.new_stack g))) at_s) final

-- The client's stacks in the reply are stacks that the client offered, and each is valid for a stack
-- that the server could produce.
pub reply_subset :
    (stack : Stack) (client : List StackNonce) (addr : Result Bytes) (m : Monomorphized)
    (c : StackNonce)
    → monomorphize stack client addr ≡ returns (ok m)
    → Memᴰ c m.picked_offers
    → Memᴰ c client
      × ((server : StackNonce) × Memᴰ server (offers stack) × (stack_pair_valid c server ≡ true))
reply_subset stack client addr m c h i =
    let k = reply-Matched stack client addr m c h i in (k.offered, (k.server, k.possible, k.valid))
