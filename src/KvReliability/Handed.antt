-- ===== src/KvReliability/Handed.antt =====
-- What `send` hands on to `recv`, and what it sends.
use tbm.Prelude.{
  ℕ, zero, suc, ◌≡◌, refl, sym, ap, ◌∙◌, List, [], ◌∷◌, ◌++◌, Option, none, some, get, set_contains,
  Result, ok, err, Bool-cases, some-injective, inl, inr, eyre, subst, ap₂,
}
use mathlib.Core.List.{append_assoc, append-nil}
use tbm.KvReliability.{
  KvReliability, Event, responses, recv_failed, timed_out, polled, waiting, returned, failed,
  aborted, Completion, incomplete, complete, sender_dropped, register, register_all, tokens,
  notify_sender, accept_response, accept_responses, completion, close, send_batch, send_loop, send,
  ready, recv_ready, recv, delivers,
}
use tbm.KvReliability.Returns.{arrivals}

-- The batch once more for each timeout.
abbrev pub resends : {A D : Type 0} → List (A × D) → List (Event A D) → List (List (A × D))
resends batch [] = []
resends batch (timed_out (ok _) ∷ es) = batch ∷ resends batch es
resends batch (e ∷ es) = resends batch es

-- Responses and batches that a state has beyond another one.
abbrev Adds :
    {A D : Type 0}
    → List (A × D)
    → List (List (A × D))
    → KvReliability A D
    → KvReliability A D
    → Type 0
Adds ms bs s t = (t.received ≡ s.received ++ ms) × (t.batches ≡ s.batches ++ bs)

Adds-trans :
    {A D : Type 0} (ms ns : List (A × D)) (bs cs : List (List (A × D))) (s t u : KvReliability A D)
    → Adds ms bs s t
    → Adds ns cs t u
    → Adds (ms ++ ns) (bs ++ cs) s u
Adds-trans ms ns bs cs s t u (a, b) (c, d) = (
  c ∙ ap (λ x. x ++ ns) a ∙ append_assoc s.received ms ns,
  d ∙ ap (λ x. x ++ cs) b ∙ append_assoc s.batches bs cs,
)

Adds-refl : {A D : Type 0} (s : KvReliability A D) → Adds [] [] s s
Adds-refl s = (sym (append-nil s.received), sym (append-nil s.batches))

module _ {A D : Type 0} (id : D → ℕ) where
  register_all-Adds :
      (ps : List (A × D)) (s : KvReliability A D) → Adds [] [] s (register_all id ps s)
  unfolding register_all
  register_all-Adds [] s = Adds-refl s
  register_all-Adds (p ∷ ps) s = register_all-Adds ps (register id p s)

  accept_response-Adds :
      (r : A × D) (s t : KvReliability A D) → accept_response id r s ≡ some t → Adds (r ∷ []) [] s t
  unfolding accept_response
  accept_response-Adds (a, d) s t h = of_sender (get (id d) s.sends) h
    where
      of_sender :
          (o : Option ℕ)
          → notify_sender id (id d) o (record s { received = s.received ++ (a, d) ∷ [] }) ≡ some t
          → Adds ((a, d) ∷ []) [] s t
      of_sender none f =
          subst (Adds ((a, d) ∷ []) [] s) (some-injective f) (refl, sym (append-nil s.batches))
      of_sender (some token) f = elim (Bool-cases (set_contains s.closed token)) [
        | inl c ↦ absurd (cc (rw c at f))
        | inr c ↦
            subst (Adds ((a, d) ∷ []) [] s) (some-injective (rw c at f))
              (refl, sym (append-nil s.batches))
      ]

  accept_responses-Adds :
      (ms : List (A × D)) (s t : KvReliability A D)
      → accept_responses id ms s ≡ some t
      → Adds ms [] s t
  unfolding accept_responses
  accept_responses-Adds [] s t h = subst (Adds [] [] s) (some-injective h) (Adds-refl s)
  accept_responses-Adds (r ∷ ms) s t h =
      of_first (accept_response id r s) (accept_response-Adds r s) h
        (λ m. accept_responses-Adds ms m t)
    where
      of_first :
          (o : Option (KvReliability A D))
          → ((m : KvReliability A D) → o ≡ some m → Adds (r ∷ []) [] s m)
          → elim o [ none ↦ none | some m ↦ accept_responses id ms m ] ≡ some t
          → ((m : KvReliability A D) → accept_responses id ms m ≡ some t → Adds ms [] m t)
          → Adds (r ∷ ms) [] s t
      of_first none first f rest = absurd (cc)
      of_first (some m) first f rest = Adds-trans (r ∷ []) ms [] [] s m t (first m refl) (rest m f)

  send_loop-Adds :
      (batch : List (A × D)) (toks : List (ℕ × (A × D))) (es : List (Event A D))
      (s t : KvReliability A D)
      → send_loop id batch toks s es ≡ waiting t
      → Adds (arrivals es) (resends batch es) s t
  unfolding send_loop
  send_loop-Adds batch toks [] s t h = subst (Adds [] [] s) (waiting-injective s t h) (Adds-refl s)
    where
      waiting-injective : (s t : KvReliability A D) → waiting s ≡ waiting t → s ≡ t
      waiting-injective s t h = cc
  send_loop-Adds batch toks (responses ms ∷ es) s t h =
      of_accepted (accept_responses id ms s) (accept_responses-Adds ms s) h
        (λ n. send_loop-Adds batch toks es n t)
    where
      of_accepted :
          (o : Option (KvReliability A D))
          → ((n : KvReliability A D) → o ≡ some n → Adds ms [] s n)
          → elim o [ none ↦ aborted | some n ↦ send_loop id batch toks n es ] ≡ waiting t
          → ((n : KvReliability A D)
              → send_loop id batch toks n es ≡ waiting t
              → Adds (arrivals es) (resends batch es) n t)
          → Adds (ms ++ arrivals es) (resends batch es) s t
      of_accepted none accepted f rest = absurd (cc)
      of_accepted (some n) accepted f rest =
          Adds-trans ms (arrivals es) [] (resends batch es) s n t (accepted n refl) (rest n f)
  send_loop-Adds batch toks (recv_failed e ∷ es) s t h = absurd (cc)
  send_loop-Adds batch toks (timed_out (err e) ∷ es) s t h = absurd (cc)
  send_loop-Adds batch toks (timed_out (ok _) ∷ es) s t h =
      Adds-trans [] (arrivals es) (batch ∷ []) (resends batch es) s (send_batch id batch s) t
        (sym (append-nil s.received), refl)
        (send_loop-Adds batch toks es (send_batch id batch s) t h)
  send_loop-Adds batch toks (polled ∷ es) s t h =
      of_completion (completion id toks s) h (send_loop-Adds batch toks es s t)
    where
      of_completion :
          (c : Completion)
          → elim c [
            | incomplete ↦ send_loop id batch toks s es
            | complete ↦ returned (close id toks s)
            | sender_dropped ↦ failed (eyre "channel closed") (close id toks s)
          ]
            ≡ waiting t
          → (send_loop id batch toks s es ≡ waiting t → Adds (arrivals es) (resends batch es) s t)
          → Adds (arrivals es) (resends batch es) s t
      of_completion incomplete f rest = rest f
      of_completion complete f rest = absurd (cc)
      of_completion sender_dropped f rest = absurd (cc)

ready-append :
    {M : Type 0} (slots : ℕ) (ms : List M) → (ready slots ms).0 ++ (ready slots ms).1 ≡ ms
ready-append zero ms = refl
ready-append (suc slots) [] = refl
ready-append (suc slots) (m ∷ ms) = ap (λ x. m ∷ x) (ready-append slots ms)

recv-append :
    {A D : Type 0} (slots : ℕ) (s t : KvReliability A D) (ms out : List (A × D))
    → recv_ready slots s ms ≡ delivers out t
    → out ++ t.received ≡ ms
recv-append {A = A} {D = D} slots s t [] out h = absurd (cc)
recv-append {A = A} {D = D} slots s t (m ∷ ms) out h =
    let (a, b) = delivered _ _ out t h in
    ap₂ (λ x (y : KvReliability A D). x ++ y.received) (sym a) (sym b)
    ∙ ap (λ x. m ∷ x) (ready-append slots ms)
  where
    delivered :
        (x : List (A × D)) (y : KvReliability A D) (u : List (A × D)) (v : KvReliability A D)
        → delivers x y ≡ delivers u v
        → (x ≡ u) × (y ≡ v)
    delivered x y u v h = (cc, cc)

-- While `send` waits, each response that has come, expected or not, has been handed on once and in
-- order: a `recv` meanwhile returns the first of what earlier calls had left and of those responses,
-- and leaves the rest. The inner connection was sent the burst once, and once more for each timeout.
pub send-recv :
    {A D : Type 0} (id : D → ℕ) (burst : List (A × D)) (first : Result {0} Unit)
    (s t u : KvReliability A D) (es : List (Event A D)) (slots : ℕ) (out : List (A × D))
    → send id burst first s es ≡ waiting t
    → recv slots t ≡ delivers out u
    → (out ++ u.received ≡ s.received ++ arrivals es)
      × (t.batches ≡ s.batches ++ burst ∷ resends burst es)
unfolding send recv
send-recv id burst (err e) s t u es slots out h k = absurd (cc)
send-recv id burst (ok _) s t u es zero out h k = absurd (cc)
send-recv id burst (ok _) s t u es (suc slots) out h k =
    let (a, b) =
      Adds-trans [] (arrivals es) (burst ∷ []) (resends burst es) s
        (send_batch id burst (register_all id burst s)) t
        (
          (register_all-Adds id burst s).0,
          ap (λ x. x ++ burst ∷ []) ((register_all-Adds id burst s).1 ∙ append-nil s.batches),
        )
        (send_loop-Adds id burst (tokens id burst s.next) es
          (send_batch id burst (register_all id burst s)) t h) in
    (recv-append slots t u t.received out k ∙ a, b)
