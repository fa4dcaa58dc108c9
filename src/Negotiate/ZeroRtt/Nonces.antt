-- ===== src/Negotiate/ZeroRtt/Nonces.antt =====
-- The nonces that a client opens connections with.
use tbm.Prelude.{
  ℕ, ◌≡◌, refl, sym, ap, List, some, get, insert, get-insert, Bytes, Result, ok, returns, ==_self,
}
use tbm.Negotiate.Types.{StackNonce, Stack}
use tbm.Negotiate.Monomorphize.{NegotiateMsg}
use tbm.Negotiate.Client.{client_monomorphize}
use tbm.Negotiate.ZeroRtt.{negotiate_client_nonce, negotiate_zero_rtt, re_negotiate, not_accepted}

get-inserted :
    (addr : ℕ) (nonce : StackNonce) (nonces : List (ℕ × StackNonce))
    → get addr (insert addr nonce nonces) ≡ some nonce
get-inserted addr nonce nonces = rw (get-insert addr addr nonce nonces, ==_self addr) refl

module _ (serialize : NegotiateMsg → Result Bytes) (serialize_addr : ℕ → Result Bytes)
    (send : ℕ → Bytes → Result {0} Unit) where
  zero_rtt_known :
      (nonces : List (ℕ × StackNonce)) (stack : Stack) (addr : ℕ) (nonce : StackNonce)
      → negotiate_zero_rtt serialize serialize_addr send (insert addr nonce nonces) stack addr
        ≡ negotiate_client_nonce serialize serialize_addr send stack nonce addr
  unfolding negotiate_zero_rtt
  zero_rtt_known nonces stack addr nonce = rw (get-inserted addr nonce nonces) refl

  -- A re-negotiation that finds a nonce among the server's options remembers it: whatever becomes of
  -- the connection that it opens, `negotiate_zero_rtt` to the address then opens the same.
  pub re_negotiate-zero_rtt :
      (nonces : List (ℕ × StackNonce)) (stack : Stack) (addr : ℕ) (options : List StackNonce)
      (empty : Result Bytes) (nonce : StackNonce)
      → client_monomorphize stack options empty ≡ returns (ok nonce)
      → (re_negotiate serialize serialize_addr send nonces stack addr
          (some (not_accepted options))
          empty).0
        ≡ returns (
            negotiate_zero_rtt serialize serialize_addr send
              (re_negotiate serialize serialize_addr send nonces stack addr
                (some (not_accepted options))
                empty).1
              stack
              addr)
  unfolding re_negotiate
  re_negotiate-zero_rtt nonces stack addr options empty nonce h =
      rw h (ap returns (sym (zero_rtt_known nonces stack addr nonce)))
