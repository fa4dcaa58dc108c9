-- ===== src/Negotiate/Monomorphize/Nonce.antt =====
-- The nonce that the handshake hands to the picked stack, and the assertions on the way to it.
use tbm.Prelude.{
  ℕ, ◌≡◌, ◌≢◌, refl, sym, ap, ◌∙◌, true, List, [], ◌∷◌, Memᴰ, Option, none, some, get, write, subst,
  Bytes, map, Result, ok, err, Result-cases, returns, panics, all_of_mem, all-mem, Report, wrap_err,
  eyre, all, find-some, get_of_mem, all_bytes_eq_self, some-injective, ok-injective, inl, inr,
}
use tbm.Negotiate.Types.{Offer, StackNonce, Stack, OfferPair}
use tbm.Negotiate.Offers.{offers}
use tbm.Negotiate.Offers.Keys.{offers-Unique}
use tbm.Negotiate.Compare.{compare_offers}
use tbm.Negotiate.Compare.Members.{IsValidPair, mem-compare_offers}
use tbm.Negotiate.Shift.{guids, shift, shift_sided, Shifts}
use tbm.Negotiate.Pick.{PickResult, pick, check_touched_complete}
use tbm.Negotiate.Pick.Checks.{check_touched_complete-Keeps}
use tbm.Negotiate.Pick.Writes.{check_touched_complete-Written}
use tbm.Negotiate.Monomorphize.{
  Monomorphized, monomorphize, finish, choose_server, with_choice, with_nonce, pop,
  check_possibilities, same_available, server_nonce,
}

pop-some : (ps : List OfferPair) → ps ≢ [] → (p : OfferPair) × Memᴰ p ps × (pop ps ≡ some p.1)
pop-some [] h = absurd (h refl)
pop-some (p ∷ []) h = (p, Memᴰ.head refl, refl)
pop-some (p ∷ q ∷ ps) h =
    let (r, there, e) = pop-some (q ∷ ps) (λ e. cc) in (r, Memᴰ.tail there, rw (e, pop))

shift-available :
    (m : Option (List Bytes)) (x : ℕ) (o : Offer) → (shift_sided m x o).available ≡ o.available
shift-available none x o = refl
shift-available (some u) x o = refl

same_available-shift :
    (x : ℕ) (o : Offer) (entry : Option Offer)
    → entry ≡ some (shift x o)
    → same_available o entry ≡ true
same_available-shift x o none h = absurd (cc)
same_available-shift x o (some v) h =
    rw (ap (λ (w : Offer). w.available) (some-injective h) ∙ shift-available o.sidedness x o)
      (all_bytes_eq_self o.available)

-- A stack's nonce that has been written over is still recognised among the possibilities.
check_possibilities-some :
    (x : ℕ → ℕ) (s s' : StackNonce) (t : Stack)
    → Memᴰ s (offers t)
    → Shifts x s s'
    → (choice : StackNonce) × (check_possibilities s' (offers t) ≡ some choice)
      × Memᴰ choice (offers t)
      × (all (λ e. same_available e.1 (get e.0 s')) choice ≡ true)
unfolding check_possibilities
check_possibilities-some x s s' t m shifts =
    find-some (λ option. all (λ e. same_available e.1 (get e.0 s')) option) s (offers t) m
      (all_of_mem (λ e. same_available e.1 (get e.0 s')) s
        λ e n.
          same_available-shift (x e.0) e.1 (get e.0 s') (
            shifts e.0 ∙ ap (write (shift (x e.0))) (get_of_mem e.0 e.1 s (offers-Unique t s m) n)))

-- The choice that the full check leaves.
record Choice (stack : Stack) (client : List StackNonce) (pr : PickResult) : Type 0 where
  client_stack : StackNonce
  server : StackNonce
  written : StackNonce
  choice : StackNonce
  popped : pop pr.filtered_pairs ≡ some written
  remains : Memᴰ (client_stack, written) pr.filtered_pairs
  shifts : Shifts (guids pr.stack) server written
  valid : IsValidPair client (offers stack) (client_stack, server)
  found : check_possibilities written (offers stack) ≡ some choice
  possible : Memᴰ choice (offers stack)
  available : all (λ e. same_available e.1 (get e.0 written)) choice ≡ true

checked-Choice :
    (stack : Stack) (client : List StackNonce) (pr : PickResult)
    → check_touched_complete (pick stack (compare_offers client (offers stack))) ≡ ok pr
    → Choice stack client pr
checked-Choice stack client pr h =
    let (picked, from, keeps) = check_touched_complete-Keeps _ pr h in
    let (p, there, popped) = pop-some pr.filtered_pairs keeps.nonempty in
    let ((server, source, shifts), complete) =
      check_touched_complete-Written stack _ pr h p there in
    let valid = (mem-compare_offers client (offers stack) (p.0, server)).0 source in
    let (choice, found, possible, available) =
      check_possibilities-some (guids pr.stack) server p.1 stack valid.1 shifts in
    record {
      client_stack = p.0;
      server = server;
      written = p.1;
      choice = choice;
      popped = popped;
      remains = there;
      shifts = shifts;
      valid = valid;
      found = found;
      possible = possible;
      available = available;
    }

finish-returns :
    (stack : Stack) (client : List StackNonce) (addr : Result Bytes) (pr : PickResult)
    (k : Choice stack client pr)
    → finish (offers stack) (ok pr) addr ≡ returns (with_nonce pr k.choice addr)
finish-returns stack client addr pr k = rw (k.popped, choose_server) (rw (k.found, with_choice))

with_nonce-inv :
    (pr : PickResult) (choice : StackNonce) (addr : Result Bytes) (m : Monomorphized)
    → with_nonce pr choice addr ≡ ok m
    → (a : Bytes) × (addr ≡ ok a)
      × (m.nonce ≡ server_nonce a choice)
      × (m.new_stack ≡ pr.stack)
      × (m.picked_offers ≡ map (λ p. p.0) pr.filtered_pairs)
with_nonce-inv pr choice (err e) m h = absurd (cc)
with_nonce-inv pr choice (ok a) m h =
    let e = ok-injective _ _ h in
    (
      a,
      refl,
      sym (ap (λ (x : Monomorphized). x.nonce) e),
      sym (ap (λ (x : Monomorphized). x.new_stack) e),
      sym (ap (λ (x : Monomorphized). x.picked_offers) e),
    )

same_available-unshift :
    (x : ℕ) (o : Offer) (entry : Option Offer)
    → same_available o (write (shift x) entry) ≡ true
    → same_available o entry ≡ true
same_available-unshift x o none h = h
same_available-unshift x o (some v) h = rw (shift-available v.sidedness x v) at h

-- What is available is not changed by writing over a nonce.
all-unshift :
    (x : ℕ → ℕ) (s s' choice : StackNonce)
    → Shifts x s s'
    → all (λ e. same_available e.1 (get e.0 s')) choice ≡ true
    → all (λ e. same_available e.1 (get e.0 s)) choice ≡ true
all-unshift x s s' choice shifts h =
    all_of_mem (λ e. same_available e.1 (get e.0 s)) choice
      λ e n. same_available-unshift (x e.0) e.1 (get e.0 s) (
        subst (λ o. same_available e.1 o ≡ true) (shifts e.0)
          (all-mem (λ e. same_available e.1 (get e.0 s')) e choice h n))

-- `monomorphize`, from the pick that its check leaves.
monomorphize-returns :
    (stack : Stack) (client : List StackNonce) (addr : Result Bytes) (pr : PickResult)
    → check_touched_complete (pick stack (compare_offers client (offers stack))) ≡ ok pr
    → (k : Choice stack client pr)
    → monomorphize stack client addr ≡ returns (with_nonce pr k.choice addr)
unfolding monomorphize
monomorphize-returns stack client addr pr e k = rw e (finish-returns stack client addr pr k)

monomorphize-fails :
    (stack : Stack) (client : List StackNonce) (addr : Result Bytes) (r : Report)
    → check_touched_complete (pick stack (compare_offers client (offers stack))) ≡ err r
    → (q : Report) × (monomorphize stack client addr ≡ returns (err q))
unfolding monomorphize
monomorphize-fails stack client addr r e = (wrap_err r (eyre "error monomorphizing stack"), rw e)

returns-injective : (a b : Result Monomorphized) → returns a ≡ returns b → a ≡ b
returns-injective a b h = cc

-- What the nonce of a handshake names, `choice` with the client's `address`, and the pick that it comes
-- from: `pr`, of which the new stack and the stacks of the reply are taken too. `written` remains in the
-- pick, for the client's stack `client_stack`; it is `server`, a stack that the server offers, written
-- over with the implementations of the new stack.
pub record IsNamed (stack : Stack) (client : List StackNonce) (addr : Result Bytes)
    (m : Monomorphized) : Type 0 where
  pub pr : PickResult
  pub checked : check_touched_complete (pick stack (compare_offers client (offers stack))) ≡ ok pr
  pub new_stack : m.new_stack ≡ pr.stack
  pub replied : m.picked_offers ≡ map (λ p. p.0) pr.filtered_pairs
  pub client_stack : StackNonce
  pub written : StackNonce
  pub remains : Memᴰ (client_stack, written) pr.filtered_pairs
  pub server : StackNonce
  pub valid : IsValidPair client (offers stack) (client_stack, server)
  pub shifts : Shifts (guids m.new_stack) server written
  pub address : Bytes
  pub serialised : addr ≡ ok address
  pub choice : StackNonce
  pub named : m.nonce ≡ server_nonce address choice
  pub possible : Memᴰ choice (offers stack)
  pub available : all (λ e. same_available e.1 (get e.0 server)) choice ≡ true

-- The nonce of a handshake has the client's address and a stack that the server offers. There is a
-- server's stack, valid for a stack of the client, that the pick which made the new stack and the reply
-- has not ruled out, and each capability that the nonce names is in it too, with the same list of what
-- is available.
pub monomorphize-nonce :
    (stack : Stack) (client : List StackNonce) (addr : Result Bytes) (m : Monomorphized)
    → monomorphize stack client addr ≡ returns (ok m)
    → IsNamed stack client addr m
monomorphize-nonce stack client addr m h =
    elim (Result-cases
      (check_touched_complete (pick stack (compare_offers client (offers stack))))) [
        | inl (pr, e) ↦
            let k = checked-Choice stack client pr e in
            let ok_m =
              returns-injective _ _ (sym (monomorphize-returns stack client addr pr e k) ∙ h) in
            let (a, serialised, named, new, replied) = with_nonce-inv pr k.choice addr m ok_m in
            record {
              pr = pr;
              checked = e;
              new_stack = new;
              replied = replied;
              client_stack = k.client_stack;
              written = k.written;
              remains = k.remains;
              server = k.server;
              valid = k.valid;
              shifts = subst (λ p. Shifts (guids p) k.server k.written) (sym new) k.shifts;
              address = a;
              serialised = serialised;
              choice = k.choice;
              named = named;
              possible = k.possible;
              available =
                  all-unshift (guids pr.stack) k.server k.written k.choice k.shifts k.available;
            }
        | inr (r, e) ↦
            let (q, fails) = monomorphize-fails stack client addr r e in absurd (cc (fails, h))
      ]

-- `monomorphize` never panics, whatever the client offers: the assertion that pairs remain, the `pop`
-- and the `expect` of `check_possibilities` always succeed.
pub monomorphize_no_panic :
    (stack : Stack) (client : List StackNonce) (addr : Result Bytes)
    → monomorphize stack client addr ≢ panics
monomorphize_no_panic stack client addr h =
    elim (Result-cases
      (check_touched_complete (pick stack (compare_offers client (offers stack))))) [
        | inl (pr, e) ↦
            absurd (
              cc
                (monomorphize-returns stack client addr pr e (checked-Choice stack client pr e), h))
        | inr (r, e) ↦
            let (q, fails) = monomorphize-fails stack client addr r e in absurd (cc (fails, h))
      ]
