-- ===== src/Rendezvous/Backend.antt =====
-- `RendezvousBackend`: the store at an address, as operations on its state, and the default `notify`.
use tbm.Prelude.{
  ℕ, ◌==◌, Bool, false, List, [], ◌∷◌, if◌then◌else◌, ok, err, Outcome, returns, panics,
}
use tbm.Negotiate.Types.{StackNonce}
use tbm.Rendezvous.Effects.{M}

-- `RendezvousEntry` has a nonce only.
abbrev pub RendezvousEntry : Type 0
RendezvousEntry = StackNonce

-- `NegotiateRendezvousResult`, with `num_participants` and `round_number`.
pub data RendezvousResult : Type 0 where
  matched : ℕ → ℕ → RendezvousResult
  no_match : RendezvousEntry → ℕ → ℕ → RendezvousResult

pub record Backend (S : Type 0) : Type 0 where
  pub try_init : RendezvousEntry → M S RendezvousResult
  pub poll_entry : RendezvousEntry → ℕ → M S RendezvousResult
  pub transition : RendezvousEntry → M S ℕ
  pub staged_update : ℕ → M S ℕ
  pub leave : M S (Unit {0})

-- How the default `notify` stands or ends: it polls again after each sleep.
pub data NotifyRun (S : Type 0) : Type 0 where
  sleeping : S → NotifyRun S
  returned : Outcome RendezvousResult → S → NotifyRun S
  asserted : NotifyRun S

-- The guard of the arm that goes on polling.
abbrev pub unchanged : ℕ → Outcome RendezvousResult → Bool
unchanged conn_ctr (returns (ok (matched num round))) = num == conn_ctr
unchanged conn_ctr r = false

module _ {S : Type 0} (b : Backend S) (entry : RendezvousEntry) (round : ℕ) where
  -- What the other endpoints do to the store during each sleep is a function on its state.
  unfoldable pub poll_again : ℕ → List (S → S) → S → NotifyRun S
  poll_again conn_ctr [] s = sleeping s
  poll_again conn_ctr (others ∷ sleeps) s =
      let polled = b.poll_entry entry round (others s) in
      let again = poll_again conn_ctr sleeps polled.1 in
      if unchanged conn_ctr polled.0 then again else returned polled.0 polled.1

  abbrev pub first_poll : List (S → S) → Outcome RendezvousResult × S → NotifyRun S
  first_poll sleeps (panics, s) = returned panics s
  first_poll sleeps (returns (err e), s) = returned (returns (err e)) s
  first_poll sleeps (returns (ok (no_match proposed num r)), s) =
      returned (returns (ok (no_match proposed num r))) s
  first_poll sleeps (returns (ok (matched conn_ctr r)), s) =
      if round == r then poll_again conn_ctr sleeps s else asserted

  unfoldable pub notify : List (S → S) → S → NotifyRun S
  notify sleeps s = first_poll sleeps (b.poll_entry entry round s)
