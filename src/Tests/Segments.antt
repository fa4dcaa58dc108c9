-- ===== src/Tests/Segments.antt =====
-- Segments that a network repeats and reorders (bertha/src/tagger.rs, bertha/src/atmostonce.rs).
use tbm.Prelude.{ℕ, ◌≡◌, refl, true, List, [], ◌∷◌, none, some, Result, ok, arith, Memᴰ}
use tbm.Ordered.{
  OrderedState, Segment, send, recv, peel, first_ready, pop_ready, accept, push, fill, receive,
  handed,
}
use tbm.Ordered.Delivery.{from, expected, take}
use tbm.Ordered.EndToEnd.{receive-prefix}
use tbm.Ordered.RoundTrip.{recv-send, arrive, duplicate_blocks}
use tbm.AtMostOnce.{Readings, RecvState, is_new, maybe_update, forget, split_off, values}
use tbm.AtMostOnce
use tbm.AtMostOnce.Window.{passes, run, at_most_once}
use tbm.AtMostOnce.Fresh.{unseen_passes}

-- Two addresses, with the data as numbers.
abbrev burst : List (ℕ × ℕ)
burst = (1, 10) ∷ (2, 20) ∷ (1, 11) ∷ (1, 12) ∷ []

abbrev segments : List (Segment ℕ)
segments = (1, (0, 10)) ∷ (2, (0, 20)) ∷ (1, (1, 11)) ∷ (1, (2, 12)) ∷ []

segments_sent : (send [] burst).1 ≡ segments
unfolding send
segments_sent = refl

-- The network reorders the segments of address 1 and repeats one; the segment of address 2 is lost.
abbrev calls : List (ℕ × List (Result (List (Segment ℕ))))
calls = (4, ok ((1, (1, 11)) ∷ (1, (0, 10)) ∷ (1, (0, 10)) ∷ []) ∷ []) ∷ (4, []) ∷ []

calls_run : (receive none [] calls).1 ≡ (1, 10) ∷ (1, 11) ∷ []
unfolding receive recv fill accept peel first_ready pop_ready push
calls_run = refl

receive-prefix_example :
    from 1 (receive none [] calls).1 ≡ take (expected 1 (receive none [] calls).0) (from 1 burst)
unfolding send
receive-prefix_example = receive-prefix burst calls 1 (omega arith) (
  ((Memᴰ.tail (Memᴰ.tail (Memᴰ.head refl)), (Memᴰ.head refl, (Memᴰ.head refl, tt))), tt),
  (tt, tt),
)

recv-send_example : handed (recv (some 3) 4 [] (ok (send [] burst).1 ∷ [])) ≡ burst
recv-send_example = recv-send (some 3) 3 (1, 10) ((2, 20) ∷ (1, 11) ∷ (1, 12) ∷ []) []

-- Segment 1 has arrived twice before segment 0.
abbrev doubled : OrderedState ℕ
doubled = record {
  snd_nxt = 0;
  expected_recv = 1;
  recvd = (1, (1, 11)) ∷ (1, (1, 11)) ∷ (3, (1, 13)) ∷ [];
}

duplicate_blocks_example :
    (st' : OrderedState ℕ) × (pop_ready none doubled ≡ some (st', (1, 11)))
    × (pop_ready none (arrive st' 1 ((2, 12) ∷ [])) ≡ none)
duplicate_blocks_example =
    duplicate_blocks doubled 1 (1, 11) (1, 11) ((3, (1, 13)) ∷ []) ((2, 12) ∷ []) refl (omega arith)
      (omega arith)

-- Segment 1 arrives twice, then 0, 3 and 2: segment 3 is never handed over, though all before it are.
abbrev repeated : List (ℕ × List (Result (List (Segment ℕ))))
repeated =
    (4, ok ((1, (1, 11)) ∷ (1, (1, 11)) ∷ (1, (0, 10)) ∷ []) ∷ [])
    ∷ (4, [])
    ∷ (4, ok ((1, (3, 13)) ∷ (1, (2, 12)) ∷ []) ∷ [])
    ∷ (4, [])
    ∷ []

repeated_stalls : (receive none [] repeated).1 ≡ (1, 10) ∷ (1, 11) ∷ (1, 12) ∷ []
unfolding receive recv fill accept peel first_ready pop_ready push
repeated_stalls = refl

abbrev at : ℕ → Readings
at t = record { at_insert = t; at_elapsed = t; at_cutoff = t; at_update = t }

at_most_once_example :
    passes 7 10
      (is_new AtMostOnce.new_state 7 10 (at 5)).0
      ((7, at 6) ∷ (8, at 7) ∷ (7, at 15) ∷ [])
    ≡ 0
unfolding is_new
at_most_once_example =
    at_most_once 7 10 AtMostOnce.new_state (at 5) ((7, at 6) ∷ (8, at 7) ∷ (7, at 15) ∷ []) refl
      (omega arith) (omega arith)

unseen_passes_example :
    (is_new (run 10 AtMostOnce.new_state ((8, at 1) ∷ (9, at 50) ∷ [])) 7 10 (at 51)).1 ≡ true
unseen_passes_example = unseen_passes 7 10 ((8, at 1) ∷ (9, at 50) ∷ []) (at 51) (omega arith)

-- Segments 1 and 2 are recorded at the same instant 9, so only the second keeps its time. The update at 12
-- forgets segment 1, which passes again at 13, 4 after it was delivered, with a horizon of 10.
abbrev same_instant : List (ℕ × Readings)
same_instant = (5, at 0) ∷ (1, at 9) ∷ (2, at 9) ∷ (6, at 12) ∷ []

same_instant_forgets : (is_new (run 10 AtMostOnce.new_state same_instant) 1 10 (at 13)).1 ≡ true
unfolding is_new
same_instant_forgets = refl
