-- ===== src/Tests/Kvstore.antt =====
-- A request of a client of the store, at a concrete input.
use tbm.Prelude.{
  ℕ, ◌≡◌, refl, false, List, [], ◌∷◌, none, some, get, contains_key, ok, Outcome, returns,
}
use tbm.Util.Matcher.{
  new_matcher, Elsewhere, sends, starts, polled, received, register_msg, elapsed,
}
use tbm.Util.Answered.{answered}
use tbm.Kvstore.Messages.{get_op, put_op, Msg, get_req, put_req, call}
use tbm.Kvstore.KvClient.{responded, msg_id, do_req}
use tbm.Kvstore.Served.{do_req-call}

abbrev before : List (ℕ × ℕ)
before = (5, 50) ∷ (6, 60) ∷ []

-- The connection counts what it sends.
abbrev counts : Msg → ℕ → Outcome (Unit {0}) × ℕ
counts msg n = (returns (ok tt), 1)

abbrev update_6 : Msg
update_6 = record { id = 9; op = put_op; key = 6; val = some 61 }

abbrev get_5 : Msg
get_5 = record { id = 8; op = get_op; key = 5; val = none }

is_update : put_req 9 6 61 ≡ update_6
unfolding put_req
is_update = refl

is_get : get_req 8 5 ≡ get_5
unfolding get_req
is_get = refl

abbrev get_under_way : List (Elsewhere Msg)
get_under_way = sends get_5 ∷ starts 8 ∷ []

no_channel_9 : contains_key 9 (elapsed msg_id get_under_way new_matcher).sent ≡ false
unfolding elapsed new_matcher register_msg
no_channel_9 = refl

do_req-call_example :
    (do_req counts update_6
        (received (some (call update_6 before).0 ∷ none ∷ none ∷ none ∷ []) ∷ polled ∷ [])
        (elapsed msg_id get_under_way new_matcher, 0)
      ≡ (
        responded (returns (ok (some 60))) (
            answered msg_id update_6
              (call update_6 before).0
              (elapsed msg_id get_under_way new_matcher)),
        1,
      ))
    × (get 6 (call update_6 before).1 ≡ some 61)
do_req-call_example = do_req-call counts get_under_way update_6 before 0 1 6 no_channel_9 refl
