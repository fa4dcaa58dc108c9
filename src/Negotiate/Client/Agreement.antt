-- ===== src/Negotiate/Client/Agreement.antt =====
-- What client and server have in common after a handshake.
use tbm.Prelude.{
  Bool, ℕ, ◌==◌, ◌≡◌, sym, ap, ◌∙◌, subst, true, false, List, [], ◌∷◌, Memᴰ, Option, none, some,
  get, Bytes, Result, ok, err, returns, panics, set_contains, contains-union, ◌||◌, >>=-eq-ok,
  ok-injective, Bool-cases, inl, inr, ◌⊎◌, arith, returns, refl, Outcome,
}
use tbm.Negotiate.Types.{
  Negotiate, Offer, StackNonce, Side, left, right, Stack, chunnel, absent, present, cx_list, select,
  Picked,
}
use tbm.Negotiate.Offers.{offers}
use tbm.Negotiate.Offers.Keys.{HasSidedness}
use tbm.Negotiate.Shift.{guids}
use tbm.Negotiate.Apply.{ApplyResult, apply, apply_chunnel, apply_offer, check_apply}
use tbm.Negotiate.Apply.Agreement.{
  check_apply_agreement, check_apply-inv, Takes, apply_select-Takes,
}
use tbm.Negotiate.Monomorphize.{Monomorphized, monomorphize, server_reply, server_nonce}
use tbm.Negotiate.Monomorphize.Agreement.{monomorphize_agreement}
use tbm.Negotiate.Monomorphize.Nonce.{monomorphize-nonce, monomorphize_no_panic}
use tbm.Negotiate.Client.{
  Chosen, handle_response, client_monomorphize, client_picked, picked_nonce, or_default,
}
use tbm.Negotiate.Client.Choice.{choose_option-inv}

-- A stack has an implementation of a capability.
abbrev pub Has : ℕ → Picked → Type 0
Has g (Picked.chunnel n) = (n.capability.guid == g) ≡ true
Has g Picked.absent = ⊥
Has g (Picked.present p) = Has g p
Has g (Picked.cx_list h t) = Has g h ⊎ Has g t
Has g (Picked.either s p) = Has g p

-- Every capability of the applied stack is among those touched.
abbrev Touches : ℕ → ApplyResult → Type 0
Touches g r = Has g r.applied → set_contains r.touched g ≡ true

chunnel-Touches :
    (g : ℕ) (n : Negotiate) (nonce : StackNonce) (r : ApplyResult)
    → (g == 0) ≡ false
    → apply_chunnel n nonce ≡ ok r
    → Touches g r
unfolding apply_chunnel
chunnel-Touches g n nonce r nz h = elim (Bool-cases (n.capability.guid == 0)) [
  | inl e ↦ subst (Touches g) (ok-injective _ _ (rw e at h)) (λ has. absurd (ground arith))
  | inr e ↦ of_offer (get n.capability.guid nonce) (rw e at h)
]
  where
    of_offer : (o : Option Offer) → apply_offer n nonce o ≡ ok r → Touches g r
    of_offer none k = absurd (cc)
    of_offer (some o) k = subst (Touches g) (ok-injective _ _ k) (λ has. rw has)

Takes-Touches :
    (g : ℕ) (side : Side) (applied : Result ApplyResult) (r : ApplyResult)
    → ((a : ApplyResult) → applied ≡ ok a → Touches g a)
    → Takes side (check_apply applied) r
    → Touches g r
Takes-Touches g side applied r ih (a, e, same_stack, _, same_touched) has =
    let (from, _) = check_apply-inv applied a e in
    rw same_touched (ih a from (subst (Has g) same_stack has))

apply-Touches :
    (g : ℕ) (t : Stack) (nonce : StackNonce) (r : ApplyResult)
    → (g == 0) ≡ false
    → apply t nonce ≡ ok r
    → Touches g r
unfolding apply
apply-Touches g (chunnel n) nonce r nz h = chunnel-Touches g n nonce r nz h
apply-Touches g absent nonce r nz h = subst (Touches g) (ok-injective _ _ h) (λ has. absurd has)
apply-Touches g (present s) nonce r nz h =
    let (a, e, f) = >>=-eq-ok (apply s nonce) _ h in
    subst (Touches g) (ok-injective _ _ f) (apply-Touches g s nonce a nz e)
apply-Touches g (cx_list h t) nonce r nz p =
    let (head, e, f) = >>=-eq-ok (apply h nonce) _ p in
    let (tail, k, l) = >>=-eq-ok (apply t head.picked) _ f in
    subst (Touches g) (ok-injective _ _ l) (λ has.
      contains-union head.touched tail.touched g
      ∙ either_touched _ _ (elim has [
        | inl here ↦ inl (apply-Touches g h nonce head nz e here)
        | inr there ↦ inr (apply-Touches g t head.picked tail nz k there)
      ]))
  where
    either_touched : (a b : Bool) → (a ≡ true) ⊎ (b ≡ true) → (a || b) ≡ true
    either_touched a b (inl e) = ground arith
    either_touched a b (inr e) = ground arith
apply-Touches g (select l r prefer) nonce s nz h =
    elim (apply_select-Takes prefer (apply l nonce) (apply r nonce) s h) [
      | inl c ↦ Takes-Touches g left (apply l nonce) s (λ a. apply-Touches g l nonce a nz) c
      | inr c ↦ Takes-Touches g right (apply r nonce) s (λ a. apply-Touches g r nonce a nz) c
    ]

-- A default option names no capability.
received :
    (g : ℕ) (o : Offer) (c : StackNonce) (picked : List StackNonce)
    → Memᴰ c (or_default picked)
    → get g c ≡ some o
    → Memᴰ c picked
received g o c [] (Memᴰ.head e) h = absurd (cc (ap (λ (m : StackNonce). get g m) e, h))
received g o c [] (Memᴰ.tail m) h = elim m [ ]
received g o c (p ∷ ps) m h = m

-- After a handshake that succeeds on both sides (`m` is what the server makes of the client's offers, and
-- the client takes `c` from the stacks that the server's reply names), for a capability, with a
-- GUID other than 0, that the client's stack uses and its nonce has as two-sided: the exclusive or of the
-- GUIDs of its implementations in the client's stack is that in the server's stack, if the server's stack
-- declares the capability as two-sided wherever it has it.
pub handshake_agreement :
    (server client : Stack) (addr : Result Bytes) (m : Monomorphized) (c : Chosen) (g : ℕ)
    (o : Offer)
    → monomorphize server (offers client) addr ≡ returns (ok m)
    → handle_response client (server_reply (ok m.picked_offers)) ≡ ok c
    → (g == 0) ≡ false
    → Has g c.applied
    → get g c.nonce ≡ some o
    → o.sidedness ≡ none
    → HasSidedness g none server
    → guids c.applied g ≡ guids m.new_stack g
unfolding handle_response
handshake_agreement server client addr m c g o h k nz has at_g side two_sided =
    let x = choose_option-inv client m.picked_offers c k in
    let (from, _) = check_apply-inv (apply client c.nonce) x.ar x.applies in
    let touched = apply-Touches g client c.nonce x.ar nz from (subst (Has g) x.same has) in
    let i = received g o c.nonce m.picked_offers x.there at_g in
    ap (λ (p : Picked). guids p g) x.same
    ∙ sym (check_apply_agreement client c.nonce x.ar g o x.applies touched at_g side)
    ∙ monomorphize_agreement server (offers client) addr m c.nonce g o h i at_g side two_sided

picked_returns :
    (m : Monomorphized) (a : Bytes) (choice : StackNonce)
    → m.nonce ≡ server_nonce a choice
    → picked_nonce m m.nonce ≡ returns (ok choice)
picked_returns m a choice e = rw e

-- A nonce, if there is one, that a stack offers; and no panic.
abbrev pub IsOffered : Stack → Outcome StackNonce → Type 0
IsOffered stack panics = ⊥
IsOffered stack (returns (err e)) = Unit
IsOffered stack (returns (ok n)) = Memᴰ n (offers stack)

client_picked-IsOffered :
    (client : Stack) (server_offers : List StackNonce) (empty : Result Bytes)
    (out : Outcome Monomorphized)
    → monomorphize client server_offers empty ≡ out
    → IsOffered client (client_picked out)
client_picked-IsOffered client server_offers empty panics e =
    monomorphize_no_panic client server_offers empty e
client_picked-IsOffered client server_offers empty (returns (err r)) e = tt
client_picked-IsOffered client server_offers empty (returns (ok m)) e =
    let k = monomorphize-nonce client server_offers empty m e in
    rw (picked_returns m k.address k.choice k.named) k.possible

-- `client_monomorphize` never panics (its `unreachable!` is never reached), and a nonce that it
-- returns is one that the client's stack offers.
pub client_monomorphize-IsOffered :
    (client : Stack) (server_offers : List StackNonce) (empty : Result Bytes)
    → IsOffered client (client_monomorphize client server_offers empty)
unfolding client_monomorphize
client_monomorphize-IsOffered client server_offers empty =
    client_picked-IsOffered client server_offers empty (monomorphize client server_offers empty)
      refl
