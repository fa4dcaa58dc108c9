-- ===== src/Tests/Commits.antt =====
-- Clients that commit, on the store of Tests/Redis.antt.
use tbm.Prelude.{
  ℕ, ◌≡◌, refl, true, false, List, [], ◌∷◌, none, some, eyre, Report, ok, err, returns, All, arith,
}
use tbm.Redis.Scripts.{Client, try_init_script, transition_script, poll_entry_script, stage}
use tbm.Redis.Waits.{done}
use tbm.Redis.Commit.{Format}
use tbm.Redis.Notify.{PollTry, retry_poll_loop}
use tbm.Redis.Retries.{FailsAtOnce, retry_poll_loop_ends}
use tbm.Redis.Rounds.{idle, locked, has_staged, System, set_role, Step}
use tbm.Redis.Mutual.{Steps, IsUnused, one_committer}
use tbm.Tests.Redis.{Server, server, server-Laws}

abbrev format : Format
format = record { serialize = λ e. ok []; deserialize = λ b. ok [] }

-- Client 1 makes the first entry, locks round 1 and stages its nonce, while client 2 polls.
abbrev client : ℕ → Client
client n = record { name = n; expiry_time = 5; insert_time = 20 }

abbrev unused : System Server
unused = record { store = record { keys = λ k. none; members = [] }; roles = λ i. idle }

abbrev initialised : System Server
initialised = record unused { store = (try_init_script server (client 1) (3 ∷ []) unused.store).1 }

abbrev locked_store : Server
locked_store = (transition_script server (client 1) initialised.store).1

abbrev locked_by_one : System Server
locked_by_one = record {
  store = locked_store;
  roles = set_role 1 (locked (7 ∷ []) 1) initialised.roles;
}

abbrev polled : System Server
polled = record locked_by_one { store = (poll_entry_script server (client 2) locked_store).1 }

abbrev staged_by_one : System Server
staged_by_one = record {
  store = (stage server (client 1) 1 (7 ∷ []) polled.store).1;
  roles = set_role 1 (has_staged (7 ∷ []) 1) polled.roles;
}

takes_lock : transition_script server (client 1) initialised.store ≡ (ok (true, 1), locked_store)
unfolding transition_script try_init_script
takes_lock = refl

committed_run : Steps server unused staged_by_one
committed_run =
    Steps.next unused polled staged_by_one
      (Steps.next unused locked_by_one polled
        (Steps.next unused initialised locked_by_one
          (Steps.next unused unused initialised (Steps.start unused)
            (Step.inits unused (client 1) (3 ∷ [])))
          (Step.locks initialised 1 (client 1) (7 ∷ []) 1 locked_store refl takes_lock))
        (Step.polls locked_by_one (client 2)))
      (Step.stages polled 1 (client 1) (7 ∷ []) 1 refl)

unused-IsUnused : IsUnused server unused
unused-IsUnused = record { no_keys = λ j. refl; all_idle = λ i. refl }

one_committer_example : ◌≡◌ {A = ℕ} 1 1
one_committer_example =
    one_committer server server-Laws unused staged_by_one 1 1 unused-IsUnused committed_run refl
      refl

-- A second transition.lua finds the lock taken; twelve failing queries end the loop of `notify`.
second_converts : (transition_script server (client 2) staged_by_one.store).0 ≡ ok (false, 1)
unfolding transition_script try_init_script poll_entry_script stage
second_converts = refl

abbrev failing : PollTry Server
failing = record {
  counts = record { others = λ s. s; fails = some (eyre "reset") };
  poll = record { others = λ s. s; fails = none };
  staged_reads = [];
}

abbrev twelve : List (PollTry Server)
twelve =
    failing ∷ failing ∷ failing ∷ failing ∷ failing ∷ failing ∷ failing ∷ failing ∷ failing
    ∷ failing ∷ failing ∷ failing ∷ []

failures : All FailsAtOnce twelve
failures = (
  at_once,
  (
    at_once,
    (
      at_once,
      (
        at_once,
        (at_once, (at_once, (at_once, (at_once, (at_once, (at_once, (at_once, (at_once, tt)))))))),
      ),
    ),
  ),
)
  where
    at_once : FailsAtOnce failing
    at_once = (eyre "reset", refl)

retry_poll_loop_ends_example :
    (e : Report) × (s : Server) × (retry_poll_loop server format
        (client 1)
        []
        0
        1
        twelve
        0
        unused.store
      ≡ done (returns (err e)) s)
retry_poll_loop_ends_example =
    retry_poll_loop_ends server format (client 1) [] 0 1 twelve unused.store failures (omega arith)
