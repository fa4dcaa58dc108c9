-- ===== src/Rendezvous/Effects.antt =====
-- Calls that change a state and may fail or panic. A call that fails keeps what it changed.
use tbm.Prelude.{ok, err, wrap, Outcome, returns, panics}
use Prim.Native.String.{String}

abbrev pub M : Type 0 → Type 0 → Type 0
M S A = S → Outcome A × S

abbrev pub resume : {S A B : Type 0} → Outcome A × S → (A → M S B) → Outcome B × S
resume (returns (ok a), s) next = next a s
resume (returns (err e), s) next = (returns (err e), s)
resume (panics, s) next = (panics, s)

infixl 5 ◌>>=◌ ◌>>◌
abbrev pub ◌>>=◌ : {S A B : Type 0} → M S A → (A → M S B) → M S B
◌>>=◌ m next s = resume (m s) next

abbrev pub ◌>>◌ : {S B : Type 0} → M S (Unit {0}) → M S B → M S B
m >> next = m >>= λ _. next

abbrev pub return : {S A : Type 0} → A → M S A
return a s = (returns (ok a), s)

abbrev pub lift : {S A : Type 0} → Outcome A → M S A
lift out s = (out, s)

abbrev pub wrap_outcome : {A : Type 0} → String → Outcome A → Outcome A
wrap_outcome message panics = panics
wrap_outcome message (returns r) = returns (wrap message r)

abbrev pub wrap_call : {S A : Type 0} → String → M S A → M S A
wrap_call message m s = (wrap_outcome message (m s).0, (m s).1)

abbrev pub modify : {S : Type 0} → (S → S) → M S (Unit {0})
modify f s = (returns (ok tt), f s)

-- A call of a component, in the second part of the state.
abbrev pub on_second : {T S A : Type 0} → M S A → M (T × S) A
on_second m (t, s) = ((m s).0, (t, (m s).1))
