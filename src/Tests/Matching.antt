-- ===== src/Tests/Matching.antt =====
-- The theorems of MsgIdMatcher at a concrete input, and runs of it.
use tbm.Prelude.{ℕ, ◌≡◌, refl, List, [], ◌∷◌, some, none, ok, Outcome, returns, panics}
use tbm.Util.Matcher.{
  Matcher, new_matcher, Elsewhere, sends, receives, polled, received, elsewhere, returned,
  register_msg, hand_slots, elapsed, wait_msg, recv_msg,
}
use tbm.Util.Answered.{recv_msg-Answers}

-- Messages with the id 1 or 2.
data Message : Type 0 where
  request_1 : Message
  request_2 : Message
  response_1 : Message
  response_2 : Message

abbrev message_id : Message → ℕ
message_id request_1 = 1
message_id request_2 = 2
message_id response_1 = 1
message_id response_2 = 2

abbrev count_sends : Message → ℕ → Outcome (Unit {0}) × ℕ
count_sends msg n = (returns (ok tt), n)

-- Two requests have been sent, and the response to the second one has been handed over first.
abbrev two_sent : List (Elsewhere Message)
two_sent =
    sends request_1 ∷ sends request_2 ∷ receives (some response_2 ∷ none ∷ none ∷ none ∷ []) ∷ []

abbrev second_answered : Matcher Message
second_answered = record {
  inflight = (1, 0) ∷ [];
  sent = (1, 0) ∷ [];
  values = (1, response_2) ∷ [];
  dropped = [];
  closed = [];
  next = 2;
}

recv_second :
    recv_msg message_id 2 (polled ∷ []) (elapsed message_id two_sent new_matcher)
    ≡ returned (returns (ok response_2)) second_answered
unfolding recv_msg elapsed new_matcher register_msg hand_slots wait_msg
recv_second = refl

recv_msg-Answers_example : message_id response_2 ≡ 2
recv_msg-Answers_example =
    recv_msg-Answers message_id two_sent 2 (polled ∷ []) response_2 second_answered recv_second

-- A request that is sent again while its `recv_msg` waits takes the sender away, and the wait panics.
sent_again :
    recv_msg message_id 1
      (elsewhere (sends request_1) ∷ polled ∷ [])
      (elapsed message_id (sends request_1 ∷ []) new_matcher)
    ≡ returned panics (record {
      inflight = (1, 1) ∷ [];
      sent = (1, 1) ∷ [];
      values = [];
      dropped = 0 ∷ [];
      closed = [];
      next = 2;
    })
unfolding recv_msg elapsed new_matcher register_msg wait_msg
sent_again = refl

-- A connection that returns one slot where there were four.
one_slot :
    recv_msg message_id 1
      (received (some response_2 ∷ []) ∷ [])
      (elapsed message_id (sends request_1 ∷ []) new_matcher)
    ≡ returned panics (record {
      inflight = (1, 0) ∷ [];
      sent = [];
      values = [];
      dropped = [];
      closed = 0 ∷ [];
      next = 1;
    })
unfolding recv_msg elapsed new_matcher register_msg hand_slots wait_msg
one_slot = refl
