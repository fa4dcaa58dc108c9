-- ===== src/Negotiate/Pick/Pairs.antt =====
-- What survives each step of `pick`: the pairs of an implementation, of the two checks, of a choice.
use tbm.Prelude.{
  ◌==◌, ◌≡◌, refl, sym, ap, ◌∙◌, false, List, [], Option, none, some, arith, get, update, Bytes,
  some-injective,
}
use tbm.Negotiate.Types.{Negotiate, Offer, StackNonce, OfferPair, Picked}
use tbm.Negotiate.Shift.{Shifts, guids, update-Shifts, kept-Shifts}
use tbm.Negotiate.Pick.{toggle, match_client, match_sided, match_server, pick_pair}

match_client-inv :
    (n : Negotiate) (c s : StackNonce) (offer : Offer) (cl : Option Offer) (p : OfferPair)
    → match_client n (c, s) offer cl ≡ some p
    → p ≡ (c, update n.capability.guid (toggle n.guid) s)
match_client-inv n c s offer none p h = cc
match_client-inv n c s offer (some cl_of) p h = ground arith

-- The client's half of a pair is kept, and the server's half is `s'`.
abbrev Becomes : StackNonce → StackNonce → OfferPair → Type 0
Becomes c s' p = (p.0 ≡ c) × (p.1 ≡ s')

becomes : (c s' : StackNonce) (p : OfferPair) → p ≡ (c, s') → Becomes c s' p
becomes c s' p e = (ap (λ (q : OfferPair). q.0) e, ap (λ (q : OfferPair). q.1) e)

match_sided-Shifts :
    (n : Negotiate) (c s : StackNonce) (offer : Offer) (m : Option (List Bytes)) (p : OfferPair)
    → (n.capability.guid == 0) ≡ false
    → get n.capability.guid s ≡ some offer
    → offer.sidedness ≡ m
    → match_sided m n (c, s) offer ≡ some p
    → (p.0 ≡ c) × Shifts (guids (Picked.chunnel n)) s p.1
match_sided-Shifts n c s offer none p nz e side h =
    let (client, server) = becomes c _ p (match_client-inv n c s offer _ p h) in
    (
      client,
      rw server (
          update-Shifts n none s nz
            (λ o f. ap (λ (v : Offer). v.sidedness) (some-injective (sym f ∙ e)) ∙ side)),
    )
match_sided-Shifts n c s offer (some u) p nz e side h =
    let (client, server) = becomes c s p (cc) in
    (
      client,
      rw server (
          kept-Shifts n u s nz
            (λ o f. ap (λ (v : Offer). v.sidedness) (some-injective (sym f ∙ e)) ∙ side)),
    )

match_server-Shifts :
    (n : Negotiate) (c s : StackNonce) (o : Option Offer) (p : OfferPair)
    → (n.capability.guid == 0) ≡ false
    → get n.capability.guid s ≡ o
    → match_server n (c, s) o ≡ some p
    → (p.0 ≡ c) × Shifts (guids (Picked.chunnel n)) s p.1
match_server-Shifts n c s none p nz e h =
    let (client, server) = becomes c s p (ground arith) in
    (client, rw server (kept-Shifts n [] s nz (λ o f. absurd (cc))))
match_server-Shifts n c s (some offer) p nz e h =
    match_sided-Shifts n c s offer offer.sidedness p nz e refl h

-- An implementation leaves the client's side of a pair alone and writes itself to the server's.
pub pick_pair-Shifts :
    (n : Negotiate) (c s : StackNonce) (p : OfferPair)
    → (n.capability.guid == 0) ≡ false
    → pick_pair n (c, s) ≡ some p
    → (p.0 ≡ c) × Shifts (guids (Picked.chunnel n)) s p.1
unfolding pick_pair
pick_pair-Shifts n c s p nz h = match_server-Shifts n c s (get n.capability.guid s) p nz refl h
