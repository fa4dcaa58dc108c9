-- ===== src/Util/Steer.antt =====
-- `AddrSteer`, which makes a connection for each address that a socket hears from. A `flume` channel is a
-- number, and whether its receiver is gone is in the state.
use tbm.Prelude.{
  ℕ, suc, Bool, List, [], ◌∷◌, ◌++◌, Option, none, some, if◌then◌else◌, get, insert, set_contains,
  Report,
}

-- `senders` is the map of `steer`; `handed` has the connections that the stream has returned, by their
-- channel, with their address, the last one first; `sent` is what has been sent, and on which channel.
pub record Steering (D : Type 0) : Type 0 where
  pub senders : List (ℕ × ℕ)
  pub handed : List (ℕ × ℕ)
  pub sent : List (ℕ × (ℕ × D))
  pub dropped : List ℕ
  pub next : ℕ

-- The socket returns slots, or fails; a connection drops its receiver.
pub data SteerEvent (D : Type 0) : Type 0 where
  heard : List (Option (ℕ × D)) → SteerEvent D
  heard_error : Report → SteerEvent D
  drops : ℕ → SteerEvent D

pub data SteerStep (D : Type 0) : Type 0 where
  steered : Steering D → SteerStep D
  unsent : ℕ → ℕ → SteerStep D

-- The stream is polled on, or has ended: with an error, out of range of the slots, or where a message
-- could not be sent on the new channel either.
pub data SteerRun (D : Type 0) : Type 0 where
  polling : Steering D → SteerRun D
  failed : Report → Steering D → SteerRun D
  no_slot : Steering D → SteerRun D
  unwrap_panics : ℕ → ℕ → SteerRun D

unfoldable pub new_steering : {D : Type 0} → Steering D
new_steering = record { senders = []; handed = []; sent = []; dropped = []; next = 0 }

-- Whether the connection that `make_conn` makes for an address keeps the receiver of the channel.
module _ {D : Type 0} (keeps : ℕ → ℕ → Bool) where
  abbrev pub hand_out : ℕ → D → Steering D → Steering D
  hand_out from d s = record s {
    senders = insert from s.next s.senders;
    handed = (s.next, from) ∷ s.handed;
    sent = s.sent ++ ((s.next, (from, d)) ∷ []);
    next = suc s.next;
  }

  -- A channel whose connection did not keep it; the connection is replaced before it is returned.
  abbrev pub give_up : ℕ → Steering D → Steering D
  give_up from s = record s {
    senders = insert from s.next s.senders;
    dropped = s.next ∷ s.dropped;
    next = suc s.next;
  }

  abbrev pub renew : ℕ → D → Steering D → SteerStep D
  renew from d s = if keeps from s.next then steered (hand_out from d s) else unsent from s.next

  abbrev pub steer_to : Option ℕ → ℕ → D → Steering D → SteerStep D
  steer_to none from d s =
      if keeps from s.next then steered (hand_out from d s) else renew from d (give_up from s)
  steer_to (some c) from d s =
      if set_contains s.dropped c
      then renew from d s
      else steered (record s { sent = s.sent ++ ((c, (from, d)) ∷ []) })

  abbrev pub after_step : SteerStep D → (Steering D → SteerRun D) → SteerRun D
  after_step (steered s) again = again s
  after_step (unsent from c) again = unwrap_panics from c

  unfoldable pub steer : List (SteerEvent D) → Steering D → SteerRun D
  steer [] s = polling s
  steer (heard [] ∷ events) s = no_slot s
  steer (heard (none ∷ slots) ∷ events) s = steer events s
  steer (heard (some (from, d) ∷ slots) ∷ events) s =
      after_step (steer_to (get from s.senders) from d s) (steer events)
  steer (heard_error e ∷ events) s = failed e s
  steer (drops c ∷ events) s = steer events (record s { dropped = c ∷ s.dropped })
