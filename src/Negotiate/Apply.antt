-- ===== src/Negotiate/Apply.antt =====
-- negotiate/apply.rs: the stack that a nonce names, applied without a handshake.
pub mod Agreement
use tbm.Prelude.{
  ℕ, ◌+◌, ◌==◌, Bool, true, false, List, [], ◌∷◌, Option, none, some, if◌then◌else◌, get, update,
  union, all, Bytes, eyre, Result, ok, err, ◌>>=◌, wrap_err, Report,
}
use tbm.Negotiate.Types.{
  Negotiate, Offer, StackNonce, Side, left, right, Stack, chunnel, absent, present, cx_list, select,
  Picked, flip,
}
use tbm.Negotiate.Pick.{toggle}

pub record ApplyResult : Type 0 where
  pub applied : Picked
  pub picked : StackNonce
  pub touched : List ℕ
  pub score : ℕ

abbrev pub toggle_two_sided : Option (List Bytes) → ℕ → Offer → Offer
toggle_two_sided (some univ) guid o = o
toggle_two_sided none guid o = toggle guid o

abbrev pub apply_offer : Negotiate → StackNonce → Option Offer → Result ApplyResult
apply_offer n picked none = err (eyre "Offer didn't contain needed capability guid")
apply_offer n picked (some offer) = ok (record {
  applied = Picked.chunnel n;
  picked = update n.capability.guid (toggle_two_sided offer.sidedness n.guid) picked;
  touched = n.capability.guid ∷ [];
  score = 0;
})

unfoldable pub apply_chunnel : Negotiate → StackNonce → Result ApplyResult
apply_chunnel n picked =
    if n.capability.guid == 0
    then ok (record { applied = Picked.chunnel n; picked = picked; touched = []; score = 0 })
    else apply_offer n picked (get n.capability.guid picked)

abbrev pub two_sided_applied : Option (List Bytes) → Offer → Bool
two_sided_applied none o = o.impl_guid == 0
two_sided_applied (some univ) o = true

abbrev pub offer_applied : Option Offer → Bool
offer_applied none = false
offer_applied (some o) = two_sided_applied o.sidedness o

-- `check_apply`, of the result of the `apply` that it begins with.
unfoldable pub check_apply : Result ApplyResult → Result ApplyResult
check_apply applied = do
  ar ← applied
  if all (λ c. offer_applied (get c ar.picked)) ar.touched
      then ok ar
      else err (eyre "Offers mismatched")

abbrev pub second_applied : Report → Result ApplyResult → Result ApplyResult
second_applied e (ok ar) = ok (record ar { applied = Picked.either right ar.applied })
second_applied e (err e') = err (wrap_err e' e)

abbrev pub first_applied : Result ApplyResult → Result ApplyResult → Result ApplyResult
first_applied (ok ar) second =
    ok (record ar { applied = Picked.either left ar.applied; score = ar.score + 1 })
first_applied (err e) second = second_applied e second

-- `apply_in_preference_order`, of the results of the two sides.
unfoldable pub apply_in_preference_order :
    Result ApplyResult → Result ApplyResult → Result ApplyResult
apply_in_preference_order first second = first_applied (check_apply first) (check_apply second)

abbrev pub apply_select : Side → Result ApplyResult → Result ApplyResult → Result ApplyResult
apply_select left l r = apply_in_preference_order l r
apply_select right l r = do
  ar ← apply_in_preference_order r l
  ok (record ar { applied = flip ar.applied })

abbrev pub apply_list : ApplyResult → Result ApplyResult → Result ApplyResult
apply_list head tail = do
  ar ← tail
  ok (record {
    applied = Picked.cx_list head.applied ar.applied;
    picked = ar.picked;
    touched = union head.touched ar.touched;
    score = head.score + ar.score;
  })

unfoldable pub apply : Stack → StackNonce → Result ApplyResult
apply (chunnel n) picked = apply_chunnel n picked
apply absent picked =
    ok (record { applied = Picked.absent; picked = picked; touched = []; score = 0 })
apply (present s) picked = do
  ar ← apply s picked
  ok (record ar { applied = Picked.present ar.applied })
apply (cx_list h t) picked = do head ← apply h picked; apply_list head (apply t head.picked)
apply (select l r prefer) picked = apply_select prefer (apply l picked) (apply r picked)
