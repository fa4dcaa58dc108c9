-- ===== src/Rendezvous/Joins.antt =====
-- What an endpoint that has joined a connection holds.
use tbm.Prelude.{ℕ, ◌≡◌, Bool, true, false, [], Option, Bytes, Result, ok, Outcome, returns}
use Prim.Native.String.{String}
use tbm.Negotiate.Types.{StackNonce, Side, Stack, Picked}
use tbm.Negotiate.Offers.{offers}
use tbm.Negotiate.Apply.{ApplyResult, apply}
use tbm.Rendezvous.Post.{Post}
use tbm.Rendezvous.Backend.{RendezvousEntry, RendezvousResult, matched, no_match, Backend}
use tbm.Rendezvous.Stacks.{UpgradeStack, inner, collect_handles, prefer}
use tbm.Rendezvous.Start.{Joined, Rendezvoused, solo_monomorphize, participants}

-- An `apply` that has returned, and the stack `p`.
abbrev pub AppliesTo : Stack → StackNonce → Picked → Type 0
AppliesTo stack nonce p = (ar : ApplyResult) × (apply stack nonce ≡ ok ar) × (p ≡ ar.applied)

-- What a poll after a transition has found: the proposed nonce is in place, or another one.
abbrev pub IsFound : RendezvousResult → StackNonce → StackNonce → Type 0
IsFound (matched num round) own nonce = nonce ≡ own
IsFound (no_match entry num round) own nonce = nonce ≡ entry

module _ {S : Type 0} (b : Backend S) (empty : Result Bytes) where
  -- From the state `s`, the endpoint has proposed its own choice, which is its entry, has polled in the
  -- round of its transition, and has applied its stack to the nonce that the poll found.
  pub record Proposes (stack : Stack) (s : S) (j : Joined) : Type 0 where
    pub picks : solo_monomorphize stack empty ≡ returns (ok j.entry)
    pub moved : S
    pub moves : b.transition j.entry s ≡ (returns (ok j.round_number), moved)
    pub result : RendezvousResult
    pub after_poll : S
    pub polls : b.poll_entry [] j.round_number moved ≡ (returns (ok result), after_poll)
    pub nonce : StackNonce
    pub found : IsFound result j.entry nonce
    pub applies : AppliesTo stack nonce j.applied

  -- The endpoint has taken the entry that is there, and has polled with it in its round.
  pub record TakesExisting (stack : Stack) (existing : RendezvousEntry) (round : ℕ) (s : S)
      (j : Joined) : Type 0 where
    pub entry : j.entry ≡ existing
    pub round_number : j.round_number ≡ round
    pub applies : AppliesTo stack existing j.applied
    pub result : RendezvousResult
    pub after_poll : S
    pub polls : b.poll_entry existing round s ≡ (returns (ok result), after_poll)

  -- The endpoint has joined with its own choice.
  pub record TakesOwn (stack : Stack) (picked : StackNonce) (round : ℕ) (j : Joined) : Type 0 where
    pub entry : j.entry ≡ picked
    pub round_number : j.round_number ≡ round
    pub applies : AppliesTo stack picked j.applied

  -- By what `try_init` returned, and whether the selector changed a preference.
  abbrev pub JoinsAs : StackNonce → RendezvousResult → Bool × UpgradeStack → S → Joined → Type 0
  JoinsAs picked init (true, stack) s j = Proposes (inner stack) s j
  JoinsAs picked (no_match existing num round) (false, stack) s j =
      TakesExisting (inner stack) existing round s j
  JoinsAs picked (matched num round) (false, stack) s j = TakesOwn (inner stack) picked round j

module _ {S : Type 0} (b : Backend S) (empty : Result Bytes)
    (connect_wrap : Picked → Outcome (Unit {0})) (selector : ℕ → ℕ → Option Side)
    (stack : UpgradeStack) where
  -- What the endpoint goes on with: `picked` is its own choice, and `init` what `try_init` returned for it
  -- in the first state.
  pub record HasJoined (s : S) (r : Rendezvoused) : Type 0 where
    pub picked : StackNonce
    pub picks : solo_monomorphize (inner stack) empty ≡ returns (ok picked)
    pub init : RendezvousResult
    pub after_init : S
    pub inits : b.try_init picked s ≡ (returns (ok init), after_init)
    pub joins :
        JoinsAs b empty picked init (prefer (participants init) selector stack) after_init r.joined
    pub connects : connect_wrap r.joined.applied ≡ returns (ok tt)
    pub same_offers : r.offers ≡ offers (inner (prefer (participants init) selector stack).1)
    pub same_handles : r.handles ≡ collect_handles (prefer (participants init) selector stack).1
    pub counted : r.num_participants ≡ participants init
