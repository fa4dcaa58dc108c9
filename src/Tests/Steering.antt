-- ===== src/Tests/Steering.antt =====
-- AddrSteer at a concrete input.
use tbm.Prelude.{ℕ, ◌==◌, not, ◌≡◌, refl, Bool, true, List, [], ◌∷◌, some, none}
use tbm.Util.Steer.{Steering, SteerEvent, heard, drops, polling, new_steering, steer}
use tbm.Util.Steered.{arrived, Steers, steer-Steers}

-- Two addresses, 7 and 8; the connection of 7 drops its receiver, and 7 sends once more.
abbrev reconnects : List (SteerEvent ℕ)
reconnects =
    heard (some (7, 100) ∷ [])
    ∷ heard (some (8, 101) ∷ [])
    ∷ heard (some (7, 102) ∷ [])
    ∷ heard (none ∷ [])
    ∷ drops 0
    ∷ heard (some (7, 103) ∷ [])
    ∷ []

abbrev all_kept : ℕ → ℕ → Bool
all_kept from c = true

abbrev reconnected : Steering ℕ
reconnected = record {
  senders = (7, 2) ∷ (8, 1) ∷ [];
  handed = (2, 7) ∷ (1, 8) ∷ (0, 7) ∷ [];
  sent = (0, (7, 100)) ∷ (1, (8, 101)) ∷ (0, (7, 102)) ∷ (2, (7, 103)) ∷ [];
  dropped = 0 ∷ [];
  next = 3;
}

reconnects_run : steer all_kept reconnects new_steering ≡ polling reconnected
unfolding steer new_steering
reconnects_run = refl

-- Where the first connection is not kept, its message goes to the second one.
second_kept :
    steer {D = ℕ} (λ from c. not (c == 0)) (heard (some (7, 100) ∷ []) ∷ []) new_steering
    ≡ polling (record {
      senders = (7, 1) ∷ [];
      handed = (1, 7) ∷ [];
      sent = (1, (7, 100)) ∷ [];
      dropped = 0 ∷ [];
      next = 2;
    })
unfolding steer new_steering
second_kept = refl

steer-Steers_example : Steers all_kept (arrived reconnects) (steer all_kept reconnects new_steering)
steer-Steers_example = steer-Steers all_kept reconnects
