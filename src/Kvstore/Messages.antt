-- ===== src/Kvstore/Messages.antt =====
-- `Msg` of kvstore/src/msg.rs and `Store` of kvstore/src/kv.rs. A string is a number: only equality of
-- strings is used.
use tbm.Prelude.{ℕ, List, Option, none, some, get, insert, remove}

pub data Op : Type 0 where
  get_op : Op
  put_op : Op

pub record Msg : Type 0 where
  pub id : ℕ
  pub op : Op
  pub key : ℕ
  pub val : Option ℕ

abbrev pub resp : Option ℕ → Msg → Msg
resp val req = record req { val = val }

-- `get_id` draws the id.
unfoldable pub get_req : ℕ → ℕ → Msg
get_req id key = record { id = id; op = get_op; key = key; val = none }

unfoldable pub put_req : ℕ → ℕ → ℕ → Msg
put_req id key val = record { id = id; op = put_op; key = key; val = some val }

-- `Store::put`, with the value that it returns: the one that was there before.
abbrev pub put : ℕ → Option ℕ → List (ℕ × ℕ) → Option ℕ × List (ℕ × ℕ)
put k (some v) store = (get k store, insert k v store)
put k none store = (get k store, remove k store)

abbrev pub call_op : Op → Msg → List (ℕ × ℕ) → Msg × List (ℕ × ℕ)
call_op get_op req store = (resp (get req.key store) req, store)
call_op put_op req store = let old = put req.key req.val store in (resp old.0 req, old.1)

unfoldable pub call : Msg → List (ℕ × ℕ) → Msg × List (ℕ × ℕ)
call req store = call_op req.op req store
