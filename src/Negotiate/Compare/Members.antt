-- ===== src/Negotiate/Compare/Members.antt =====
-- `compare_offers` against its specification: the valid pairs of the product of the two lists.
use tbm.Prelude.{
  ◌≡◌, sym, ap, ◌∙◌, true, List, [], ◌∷◌, Memᴰ, Bool-cases, inl, inr, ◌↔◌, mem-append_left,
  mem-append_right, mem-append-cases, subst,
}
use tbm.Negotiate.Types.{StackNonce, OfferPair}
use tbm.Negotiate.Compare.{stack_pair_valid, compare_server, compare_offers}

abbrev pub IsValidPair : List StackNonce → List StackNonce → OfferPair → Type 0
IsValidPair client server p = Memᴰ p.0 client × Memᴰ p.1 server × (stack_pair_valid p.0 p.1 ≡ true)

-- The pairs of one client stack.
abbrev IsValidServer : StackNonce → List StackNonce → OfferPair → Type 0
IsValidServer c server p = (p.0 ≡ c) × Memᴰ p.1 server × (stack_pair_valid p.0 p.1 ≡ true)

later_server :
    (c s : StackNonce) (p : OfferPair) (server : List StackNonce)
    → IsValidServer c server p
    → IsValidServer c (s ∷ server) p
later_server c s p server v = (v.0, Memᴰ.tail v.1, v.2)

here_server :
    (c s : StackNonce) (p : OfferPair) (server : List StackNonce)
    → stack_pair_valid c s ≡ true
    → p ≡ (c, s)
    → IsValidServer c (s ∷ server) p
here_server c s p server v e = (
  ap (λ (q : OfferPair). q.0) e,
  Memᴰ.head (ap (λ (q : OfferPair). q.1) e),
  subst (λ (q : OfferPair). stack_pair_valid q.0 q.1 ≡ true) (sym e) v,
)

hit_or_later :
    (c s : StackNonce) (p : OfferPair) (server : List StackNonce) (pairs : List OfferPair)
    → stack_pair_valid c s ≡ true
    → (Memᴰ p pairs → IsValidServer c server p)
    → Memᴰ p ((c, s) ∷ pairs)
    → IsValidServer c (s ∷ server) p
hit_or_later c s p server pairs v ih (Memᴰ.head e) = here_server c s p server v e
hit_or_later c s p server pairs v ih (Memᴰ.tail m) = later_server c s p server (ih m)

server_sound :
    (c : StackNonce) (server : List StackNonce) (p : OfferPair)
    → Memᴰ p (compare_server c server)
    → IsValidServer c server p
unfolding compare_server
server_sound c [] p m = elim m [ ]
server_sound c (s ∷ server) p m = elim (Bool-cases (stack_pair_valid c s)) [
  | inl v ↦
      hit_or_later c s p server (compare_server c server) v (server_sound c server p) (rw v at m)
  | inr v ↦ later_server c s p server (server_sound c server p (rw v at m))
]

server_complete :
    (c s : StackNonce) (server : List StackNonce)
    → Memᴰ s server
    → stack_pair_valid c s ≡ true
    → Memᴰ (c, s) (compare_server c server)
unfolding compare_server
server_complete c s [] m v = elim m [ ]
server_complete c s (t ∷ server) (Memᴰ.head e) v =
    rw (ap (stack_pair_valid c) (sym e) ∙ v) (Memᴰ.head (ap (λ x. (c, x)) e))
server_complete c s (t ∷ server) (Memᴰ.tail m) v = elim (Bool-cases (stack_pair_valid c t)) [
  | inl w ↦ rw w (Memᴰ.tail (server_complete c s server m v))
  | inr w ↦ rw w (server_complete c s server m v)
]

sound :
    (client server : List StackNonce) (p : OfferPair)
    → Memᴰ p (compare_offers client server)
    → IsValidPair client server p
unfolding compare_offers
sound [] server p m = elim m [ ]
sound (c ∷ client) server p m =
    elim (mem-append-cases p (compare_server c server) (compare_offers client server) m) [
      | inl n ↦ let (e, there, v) = server_sound c server p n in (Memᴰ.head e, there, v)
      | inr n ↦ let (there, s, v) = sound client server p n in (Memᴰ.tail there, s, v)
    ]

complete :
    (client server : List StackNonce) (c s : StackNonce)
    → Memᴰ c client
    → Memᴰ s server
    → stack_pair_valid c s ≡ true
    → Memᴰ (c, s) (compare_offers client server)
unfolding compare_offers
complete [] server c s m n v = elim m [ ]
complete (d ∷ client) server c s (Memᴰ.head e) n v =
    mem-append_left (c, s) (compare_server d server) (compare_offers client server)
      (subst (λ x. Memᴰ (c, s) (compare_server x server)) e (server_complete c s server n v))
complete (d ∷ client) server c s (Memᴰ.tail m) n v =
    mem-append_right (c, s) (compare_server d server) (compare_offers client server)
      (complete client server c s m n v)

-- `compare_offers` returns exactly the pairs of a client's stack and a server's stack that are valid
-- for one another.
pub mem-compare_offers :
    (client server : List StackNonce) (p : OfferPair)
    → Memᴰ p (compare_offers client server) ↔ IsValidPair client server p
mem-compare_offers client server p =
    (sound client server p, λ v. complete client server p.0 p.1 v.0 v.1 v.2)
