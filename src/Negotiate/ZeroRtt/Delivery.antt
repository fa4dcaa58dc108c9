-- ===== src/Negotiate/ZeroRtt/Delivery.antt =====
-- What the check of zero-rtt replies hands to the application.
use tbm.Prelude.{
  ℕ, zero, suc, Bool, true, false, ◌≡◌, refl, sym, ap, ◌∙◌, List, [], ◌∷◌, ◌++◌, Bytes, Result, ok,
  err, length, ◌≤◌, arith,
}
use tbm.Negotiate.Monomorphize.{
  NegotiateMsg, client_offer, server_reply, server_nonce, client_nonce, server_nonce_ack,
}
use tbm.Negotiate.ZeroRtt.{Arrivals, Recv, waits, delivers, fails, recv_inner, check_reply, recv}

-- The application's messages among the arrivals: before the acknowledgement those that are not
-- messages of the negotiation, and all that follow it.
abbrev pub due_message : ℕ → Bytes → Result NegotiateMsg → List (ℕ × Bytes)
due_message a d (err e) = (a, d) ∷ []
due_message a d (ok m) = []

abbrev pub acknowledged : Result NegotiateMsg → Bool
acknowledged (ok server_nonce_ack) = true
acknowledged _ = false

module _ (deserialize : Bytes → Result NegotiateMsg) where
  abbrev pub due_after : Arrivals → List (ℕ × Bytes)
  due_after [] = []
  due_after (err e ∷ rs) = due_after rs
  due_after (ok ms ∷ rs) = ms ++ due_after rs

  abbrev pub due_before : Arrivals → List (ℕ × Bytes)
  due_before [] = []
  due_before (err e ∷ rs) = due_before rs
  due_before (ok [] ∷ rs) = due_before rs
  due_before (ok ((a, d) ∷ ms) ∷ rs) =
      let later = due_before rs in
      due_message a d (deserialize d)
      ++ elim (acknowledged (deserialize d)) [ true ↦ due_after rs | false ↦ later ]

  abbrev pub due : Bool → Arrivals → List (ℕ × Bytes)
  due true rs = due_after rs
  due false rs = due_before rs

  -- Calls of `recv` one after the other: what they delivered, and what is left.
  abbrev pub after_call : Recv → List (ℕ × Bytes) × Bool × Arrivals
  after_call (waits s) = ([], s, [])
  after_call (delivers ms s rs) = (ms, s, rs)
  after_call (fails e s rs) = ([], s, rs)

  abbrev pub calls : ℕ → Bool → Arrivals → List (ℕ × Bytes)
  calls zero s rs = []
  calls (suc n) s rs =
      let (out, s', rs') = after_call (recv deserialize s rs) in out ++ calls n s' rs'

  -- One call hands over what is due first, and leaves fewer arrivals.
  abbrev HandsOver : Bool → Arrivals → List (ℕ × Bytes) × Bool × Arrivals → Type 0
  HandsOver s rs (out, s', rs') =
      (due s rs ≡ out ++ due s' rs') × ((n : ℕ) → length rs ≤ suc n → length rs' ≤ n)

  recv_inner-HandsOver : (rs : Arrivals) → HandsOver true rs (after_call (recv_inner rs))
  recv_inner-HandsOver [] = (refl, λ n h. omega arith)
  recv_inner-HandsOver (ok burst ∷ rs) = (refl, λ n h. omega arith)
  recv_inner-HandsOver (err e ∷ rs) = (refl, λ n h. omega arith)

  check_reply-HandsOver :
      (a : ℕ) (d : Bytes) (ms : List (ℕ × Bytes)) (rs : Arrivals) (m : Result NegotiateMsg)
      → deserialize d ≡ m
      → HandsOver false (ok ((a, d) ∷ ms) ∷ rs) (after_call (check_reply a d rs m))
  check_reply-HandsOver a d ms rs (err e) h = (rw h refl, λ n k. omega arith)
  check_reply-HandsOver a d ms rs (ok server_nonce_ack) h =
      let (same, fewer) = recv_inner-HandsOver rs in (rw h same, λ n k. fewer n (omega arith))
  check_reply-HandsOver a d ms rs (ok (client_offer os)) h = (rw h refl, λ n k. omega arith)
  check_reply-HandsOver a d ms rs (ok (client_nonce o)) h = (rw h refl, λ n k. omega arith)
  check_reply-HandsOver a d ms rs (ok (server_nonce addr o)) h = (rw h refl, λ n k. omega arith)
  check_reply-HandsOver a d ms rs (ok (server_reply (ok os))) h = (rw h refl, λ n k. omega arith)
  check_reply-HandsOver a d ms rs (ok (server_reply (err e))) h = (rw h refl, λ n k. omega arith)

  recv-HandsOver : (s : Bool) (rs : Arrivals) → HandsOver s rs (after_call (recv deserialize s rs))
  unfolding recv
  recv-HandsOver true rs = recv_inner-HandsOver rs
  recv-HandsOver false [] = (refl, λ n h. omega arith)
  recv-HandsOver false (err e ∷ rs) = (refl, λ n h. omega arith)
  recv-HandsOver false (ok [] ∷ rs) =
      let (same, fewer) = recv-HandsOver false rs in (same, λ n h. fewer n (omega arith))
  recv-HandsOver false (ok ((a, d) ∷ ms) ∷ rs) =
      check_reply-HandsOver a d ms rs (deserialize d) refl

  calls-due_all : (n : ℕ) (s : Bool) (rs : Arrivals) → length rs ≤ n → calls n s rs ≡ due s rs
  calls-due_all zero true [] h = refl
  calls-due_all zero false [] h = refl
  calls-due_all zero s (r ∷ rs) h = absurd (omega arith)
  calls-due_all (suc n) s rs h =
      let (out, s', rs') = after_call (recv deserialize s rs) in
      let (same, fewer) = recv-HandsOver s rs in
      ap (λ x. out ++ x) (calls-due_all n s' rs' (fewer n h)) ∙ sym same

-- On a connection opened with a nonce, as many calls of `recv` as there are arrivals hand over, in
-- order, each message before the server's acknowledgement that is not one of the negotiation and
-- every message after it, and nothing else. Before the acknowledgement an arrival counts with its
-- first message, since it is received into one slot.
pub calls-due :
    (deserialize : Bytes → Result NegotiateMsg) (n : ℕ) (rs : Arrivals)
    → length rs ≤ n
    → calls deserialize n false rs ≡ due deserialize false rs
calls-due deserialize n rs h = calls-due_all deserialize n false rs h
