-- ===== src/Kvstore/KvClient.antt =====
-- `KvClient` of kvstore/src/client.rs.
use tbm.Prelude.{
  ℕ, ◌==◌, List, Option, if◌then◌else◌, eyre, wrap_err, ok, err, Outcome, returns, panics,
}
use tbm.Util.Matcher.{Matcher, MatchEvent, MatchRun, waiting, returned, send_msg, recv_msg}
use tbm.Kvstore.Messages.{Msg}

pub data ClientRun : Type 0 where
  awaiting : Matcher Msg → ClientRun
  responded : Outcome (Option ℕ) → Matcher Msg → ClientRun

abbrev pub msg_id : Msg → ℕ
msg_id msg = msg.id

abbrev pub after_recv : ℕ → MatchRun Msg → ClientRun
after_recv id (waiting m) = awaiting m
after_recv id (returned panics m) = responded panics m
after_recv id (returned (returns (err e)) m) =
    responded (returns (err (wrap_err e (eyre "Error awaiting response")))) m
after_recv id (returned (returns (ok rsp)) m) =
    if rsp.id == id
    then responded (returns (ok rsp.val)) m
    else responded (returns (err (eyre "Msg id mismatch, check for reordering"))) m

-- What follows is not run where the send has failed.
abbrev pub after_sent : Outcome (Unit {0}) → ClientRun → Matcher Msg → ClientRun
after_sent panics received m = responded panics m
after_sent (returns (err e)) received m =
    responded (returns (err (wrap_err e (eyre "Error sending request")))) m
after_sent (returns (ok u)) received m = received

module _ {W : Type 0} (send : Msg → W → Outcome (Unit {0}) × W) where
  unfoldable pub do_req : Msg → List (MatchEvent Msg) → Matcher Msg × W → ClientRun × W
  do_req req events (m, w) =
      let out = send_msg msg_id send req (m, w) in
      (
        after_sent out.0 (after_recv req.id (recv_msg msg_id req.id events out.1.0)) out.1.0,
        out.1.1,
      )
