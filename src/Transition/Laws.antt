-- ===== src/Transition/Laws.antt =====
-- `verified` against the executor's post-state.
use mathlib.Core.Logic.{if_pos, if_neg}
use sats_usd.Base.{◌≡◌, ◌↔◌, ap, ◌∙◌, sym, Result, ok, err, panic}
use sats_usd.Types.{StateRoot, StateRoot-discrete}
use sats_usd.Transition.{verified}

module _ {ℓ} {E : Type ℓ} where
  refused :
      {e : E} {r : Result E StateRoot} {s : StateRoot}
      → ◌≡◌ {A = Result E (Unit {0})} (err e) (ok tt)
      → r ≡ ok s
  refused h = cc

  pub verified_ok :
      (mismatch : E) (r : Result E StateRoot) (new : StateRoot)
      → verified mismatch r new ≡ ok tt
      → r ≡ ok new
  unfolding verified
  verified_ok mismatch (ok e) new h = elim (StateRoot-discrete e new) [
    | yes same ↦ ap ok same
    | no other ↦ refused (sym (if_neg (StateRoot-discrete e new) other _ _) ∙ h)
  ]
  verified_ok mismatch (err e) new h = cc
  verified_ok mismatch panic new h = cc

  pub ok_verified :
      (mismatch : E) (r : Result E StateRoot) (new : StateRoot)
      → r ≡ ok new
      → verified mismatch r new ≡ ok tt
  unfolding verified
  ok_verified mismatch (ok e) new h =
      let same : e ≡ new = cc in if_pos (StateRoot-discrete e new) same _ _
  ok_verified mismatch (err e) new h = cc
  ok_verified mismatch panic new h = cc

  -- A verifier accepts a claimed state exactly where its executor gives that state: a refusal, a
  -- panic and every other state are not accepted.
  pub verified_iff :
      (mismatch : E) (r : Result E StateRoot) (new : StateRoot)
      → (verified mismatch r new ≡ ok tt) ↔ (r ≡ ok new)
  verified_iff mismatch r new = (verified_ok mismatch r new, ok_verified mismatch r new)
