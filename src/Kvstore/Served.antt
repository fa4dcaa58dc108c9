-- ===== src/Kvstore/Served.antt =====
-- A client's request, answered by the store.
use tbm.Prelude.{
  ℕ, ◌==◌, ==_self, ◌≡◌, refl, ap, ap₂, ◌∙◌, false, List, [], ◌∷◌, Option, none, some,
  if◌then◌else◌, get, get-insert, get-remove, contains_key, ok, Outcome, returns, arith,
}
use tbm.Util.Matcher.{
  Matcher, new_matcher, Elsewhere, polled, received, returned, elapsed, send_msg, recv_msg,
}
use tbm.Util.Answered.{answered, recv_msg-send_msg}
use tbm.Kvstore.Messages.{Op, get_op, put_op, Msg, resp, call_op, call}
use tbm.Kvstore.KvClient.{responded, msg_id, after_recv, after_sent, do_req}

-- What a key is bound to after a request.
abbrev pub bound : Op → Option ℕ → Option ℕ → Option ℕ
bound get_op val before = before
bound put_op val before = val

-- The response has the id and the key of the request, and the value from before it.
call_op-resp :
    (op : Op) (val : Option ℕ) (req : Msg) (store : List (ℕ × ℕ))
    → req.val ≡ val
    → (call_op op req store).0 ≡ resp (get req.key store) req
call_op-resp get_op val req store e = refl
call_op-resp put_op (some v) req store e = rw e refl
call_op-resp put_op none req store e = rw e refl

call_op-get :
    (op : Op) (val : Option ℕ) (req : Msg) (store : List (ℕ × ℕ)) (k : ℕ)
    → req.val ≡ val
    → get k (call_op op req store).1
      ≡ (if req.key == k then bound op val (get k store) else get k store)
call_op-get get_op val req store k e = ground arith
call_op-get put_op (some v) req store k e = rw e (get-insert k req.key v store)
call_op-get put_op none req store k e = rw e (get-remove k req.key store)

after_recv-resp :
    (v : Option ℕ) (req rsp : Msg) (m : Matcher Msg)
    → rsp ≡ resp v req
    → after_recv req.id (returned (returns (ok rsp)) m) ≡ responded (returns (ok v)) m
after_recv-resp v req rsp m e =
    ap (λ r. after_recv req.id (returned (returns (ok r)) m)) e ∙ rw (==_self req.id) refl

-- Whatever a client has sent and received before, on a connection whose sends succeed: a request with an
-- id that has no channel, answered by the store in the first slot, returns the value of its key from
-- before the request, and afterwards the store binds that key to what the request says, and no other
-- key differently.
pub do_req-call :
    {W : Type 0} (send : Msg → W → Outcome (Unit {0}) × W) (past : List (Elsewhere Msg)) (req : Msg)
    (store : List (ℕ × ℕ)) (w w' : W) (k : ℕ)
    → contains_key req.id (elapsed msg_id past new_matcher).sent ≡ false
    → send req w ≡ (returns (ok tt), w')
    → let m = elapsed msg_id past new_matcher in
      let (rsp, after) = call req store in
      (do_req send req (received (some rsp ∷ none ∷ none ∷ none ∷ []) ∷ polled ∷ []) (m, w)
        ≡ (responded (returns (ok (get req.key store))) (answered msg_id req rsp m), w'))
      × (get k after ≡ (if req.key == k then bound req.op req.val (get k store) else get k store))
unfolding do_req call send_msg
do_req-call send past req store w w' k new sends =
    let m = elapsed msg_id past new_matcher in
    let rsp = (call req store).0 in
    let copied = call_op-resp req.op req.val req store refl in
    let events = received (some rsp ∷ none ∷ none ∷ none ∷ []) ∷ polled ∷ [] in
    let run = recv_msg msg_id req.id events (send_msg msg_id send req (m, w)).1.0 in
    (
      ap₂ (λ r v. (r, v))
          (ap (λ o. after_sent o.0 (after_recv req.id run) (send_msg msg_id send req (m, w)).1.0)
              sends
            ∙ ap (after_recv req.id)
                (recv_msg-send_msg msg_id send past req rsp [] w new (ap msg_id copied))
            ∙ after_recv-resp (get req.key store) req rsp (answered msg_id req rsp m) copied)
          (ap (λ o. o.1) sends),
      call_op-get req.op req.val req store k refl,
    )
