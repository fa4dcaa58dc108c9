-- ===== src/KvReliability.antt =====
-- kvstore/src/reliability.rs: requests that are sent again until a response has come for each. A
-- `oneshot` channel is a token; its state is in the lists that name the token. Calls of `send` come one
-- after another: what a concurrent call takes up from the map is not an event.
pub mod Answered
pub mod Returns
pub mod Handed
pub mod Numbered
use tbm.Prelude.{
  remove, ℕ, zero, suc, Bool, true, false, List, [], ◌∷◌, ◌++◌, map, Option, none, some, get,
  insert, all, not, set_contains, if◌then◌else◌, ◌==◌, Report, eyre, Result, ok, err,
}

-- `KvReliability`. `answered`, `dropped` and `closed` are the channels that were sent to, whose sender
-- is gone, and whose receiver is gone; `received` is what `recv` has to return, and `batches` is what
-- was sent on the inner connection.
pub record KvReliability (A D : Type 0) : Type 0 where
  pub sends : List (ℕ × ℕ)
  pub next : ℕ
  pub answered : List ℕ
  pub dropped : List ℕ
  pub closed : List ℕ
  pub received : List (A × D)
  pub batches : List (List (A × D))

-- What the `select!` of `send` takes up: responses, a failure to receive, the timeout with the result
-- of sending again, or a poll of the completions.
pub data Event (A D : Type 0) : Type 0 where
  responses : List (A × D) → Event A D
  recv_failed : Report → Event A D
  timed_out : Result {0} Unit → Event A D
  polled : Event A D

pub data SendRun (A D : Type 0) : Type 0 where
  waiting : KvReliability A D → SendRun A D
  returned : KvReliability A D → SendRun A D
  failed : Report → KvReliability A D → SendRun A D
  aborted : SendRun A D

-- `batch_completions.try_collect()`
pub data Completion : Type 0 where
  incomplete complete sender_dropped : Completion

abbrev pub drop_old : Option ℕ → List ℕ → List ℕ
drop_old none dropped = dropped
drop_old (some token) dropped = token ∷ dropped

module _ {A D : Type 0} (id : D → ℕ) where
  -- The body of the loop over the burst.
  abbrev pub register : A × D → KvReliability A D → KvReliability A D
  register (a, d) s = record s {
    sends = insert (id d) s.next s.sends;
    dropped = drop_old (get (id d) s.sends) s.dropped;
    next = suc s.next;
  }

  unfoldable pub register_all : List (A × D) → KvReliability A D → KvReliability A D
  register_all [] s = s
  register_all (pkt ∷ burst) s = register_all burst (register pkt s)

  -- The packets of a burst with the tokens of their channels.
  abbrev pub tokens : List (A × D) → ℕ → List (ℕ × (A × D))
  tokens [] n = []
  tokens (pkt ∷ burst) n = (n, pkt) ∷ tokens burst (suc n)

  -- `send_ch.send(())`, which panics if the receiver is gone.
  abbrev pub notify : ℕ → ℕ → KvReliability A D → Option (KvReliability A D)
  notify k token s =
      if set_contains s.closed token
      then none
      else some (record s { sends = remove k s.sends; answered = token ∷ s.answered })

  abbrev pub notify_sender : ℕ → Option ℕ → KvReliability A D → Option (KvReliability A D)
  notify_sender k none s = some s
  notify_sender k (some token) s = notify k token s

  -- A response is handed on, and its request is done.
  unfoldable pub accept_response : A × D → KvReliability A D → Option (KvReliability A D)
  accept_response (a, d) s =
      notify_sender (id d) (get (id d) s.sends) (record s { received = s.received ++ (a, d) ∷ [] })

  unfoldable pub accept_responses : List (A × D) → KvReliability A D → Option (KvReliability A D)
  accept_responses [] s = some s
  accept_responses (resp ∷ ms) s = elim (accept_response resp s) [
    | none ↦ none
    | some s' ↦ accept_responses ms s'
  ]

  abbrev pub completion : List (ℕ × (A × D)) → KvReliability A D → Completion
  completion toks s =
      if all (λ t. not (set_contains s.dropped t.0)) toks
      then if all (λ t. set_contains s.answered t.0) toks then complete else incomplete
      else sender_dropped

  -- The receivers of a call that ends are gone.
  abbrev pub close : List (ℕ × (A × D)) → KvReliability A D → KvReliability A D
  close toks s = record s { closed = map (λ t. t.0) toks ++ s.closed }

  abbrev pub send_batch : List (A × D) → KvReliability A D → KvReliability A D
  send_batch batch s = record s { batches = s.batches ++ batch ∷ [] }

  unfoldable pub send_loop :
      List (A × D) → List (ℕ × (A × D)) → KvReliability A D → List (Event A D) → SendRun A D
  send_loop batch toks s [] = waiting s
  send_loop batch toks s (responses ms ∷ es) = elim (accept_responses ms s) [
    | none ↦ aborted
    | some s' ↦ send_loop batch toks s' es
  ]
  send_loop batch toks s (recv_failed e ∷ es) = failed e (close toks s)
  send_loop batch toks s (timed_out (ok _) ∷ es) = send_loop batch toks (send_batch batch s) es
  send_loop batch toks s (timed_out (err e) ∷ es) = failed e (close toks s)
  send_loop batch toks s (polled ∷ es) = elim (completion toks s) [
    | incomplete ↦ send_loop batch toks s es
    | complete ↦ returned (close toks s)
    | sender_dropped ↦ failed (eyre "channel closed") (close toks s)
  ]

  abbrev pub first_sent :
      List (A × D)
      → List (ℕ × (A × D))
      → KvReliability A D
      → List (Event A D)
      → Result {0} Unit
      → SendRun A D
  first_sent burst toks s es (ok _) = send_loop burst toks (send_batch burst s) es
  first_sent burst toks s es (err e) = failed e (close toks s)

  -- `first` is the result of sending the batch for the first time.
  unfoldable pub send :
      List (A × D) → Result {0} Unit → KvReliability A D → List (Event A D) → SendRun A D
  send burst first s es = first_sent burst (tokens burst s.next) (register_all burst s) es first

-- `msgs_buf[0]` of an empty buffer panics, and the first `recv_async` waits for a response.
pub data Recv (A D : Type 0) : Type 0 where
  index_panics blocks : Recv A D
  delivers : List (A × D) → KvReliability A D → Recv A D

-- Responses that are ready, as many as there are slots.
abbrev pub ready : {M : Type 0} → ℕ → List M → List M × List M
ready zero ms = ([], ms)
ready (suc slots) [] = ([], [])
ready (suc slots) (m ∷ ms) = let (taken, rest) = ready slots ms in (m ∷ taken, rest)

abbrev pub recv_ready : {A D : Type 0} → ℕ → KvReliability A D → List (A × D) → Recv A D
recv_ready slots s [] = blocks
recv_ready slots s (m ∷ ms) =
    let (taken, rest) = ready slots ms in delivers (m ∷ taken) (record s { received = rest })

unfoldable pub recv : {A D : Type 0} → ℕ → KvReliability A D → Recv A D
recv zero s = index_panics
recv (suc slots) s = recv_ready slots s s.received
