-- ===== src/Rendezvous/Post.antt =====
-- What holds of the value that a call returns.
use tbm.Prelude.{◌≡◌, refl, ok, err, Outcome, returns, panics}
use Prim.Native.String.{String}
use tbm.Rendezvous.Effects.{M, resume, lift, wrap_outcome, wrap_call}

-- A condition on the value that a call returns, where it returns one.
abbrev pub Post : {S A : Type 0} → (A → Type 0) → Outcome A × S → Type 0
Post Q (returns (ok a), s) = Q a
Post Q (returns (err e), s) = Unit
Post Q (panics, s) = Unit

called-Post :
    {S A B : Type 0} (Q : B → Type 0) (message : String) (out : Outcome A × S) (next : A → M S B)
    → ((a : A) (s : S) → out ≡ (returns (ok a), s) → Post Q (next a s))
    → Post Q (resume (wrap_outcome message out.0, out.1) next)
called-Post Q message (returns (ok a), s) next f = f a s refl
called-Post Q message (returns (err e), s) next f = tt
called-Post Q message (panics, s) next f = tt

-- A call that goes on, with the state that it leaves.
pub call-Post :
    {S A B : Type 0} (Q : B → Type 0) (message : String) (m : M S A) (s : S) (next : A → M S B)
    → ((a : A) (s' : S) → m s ≡ (returns (ok a), s') → Post Q (next a s'))
    → Post Q (resume (wrap_call message m s) next)
call-Post Q message m s next f = called-Post Q message (m s) next f

pub resume-Post :
    {S A B : Type 0} (Q : B → Type 0) (out : Outcome A × S) (next : A → M S B)
    → ((a : A) (s : S) → out ≡ (returns (ok a), s) → Post Q (next a s))
    → Post Q (resume out next)
resume-Post Q (returns (ok a), s) next f = f a s refl
resume-Post Q (returns (err e), s) next f = tt
resume-Post Q (panics, s) next f = tt

-- An outcome that leaves the state as it is.
pub lift-Post :
    {S A B : Type 0} (Q : B → Type 0) (out : Outcome A) (s : S) (next : A → M S B)
    → ((a : A) → out ≡ returns (ok a) → Post Q (next a s))
    → Post Q (resume (lift out s) next)
lift-Post Q (returns (ok a)) s next f = f a refl
lift-Post Q (returns (err e)) s next f = tt
lift-Post Q panics s next f = tt

pub wrapped-Post :
    {S A B : Type 0} (Q : B → Type 0) (message : String) (out : Outcome A) (s : S)
    (next : A → M S B)
    → ((a : A) → out ≡ returns (ok a) → Post Q (next a s))
    → Post Q (resume (lift (wrap_outcome message out) s) next)
wrapped-Post Q message (returns (ok a)) s next f = f a refl
wrapped-Post Q message (returns (err e)) s next f = tt
wrapped-Post Q message panics s next f = tt
