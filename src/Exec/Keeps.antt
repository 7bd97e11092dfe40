-- ===== src/Exec/Keeps.antt =====
-- Invariants of actions: what holds before holds after, whether the action returns or throws.
use nastroyka_claude.Base.{Bool, true, false, if◌then◌else◌}
use nastroyka_claude.Domain.Errors.{Error, Result, ok, err}
use nastroyka_claude.Exec.{
  Exec, pure, throw, lift, gets, continue, ◌>>=◌, recover, try_catch, when, modify,
}

module _ {ℓ} {S A : Type ℓ} where
  pub record Keeps (I : S → Type ℓ) (m : Exec S A) : Type ℓ where
    pub at : (s : S) → I s → I (m s).1

module _ {ℓ} {S A B : Type ℓ} where
  continue-keeps :
      (I : S → Type ℓ) (r : Result A × S) (f : A → Exec S B)
      → I r.1
      → ((a : A) → Keeps I (f a))
      → I (continue r f).1
  continue-keeps I (ok a, s) f h k = (k a).at s h
  continue-keeps I (err e, s) f h k = h

  pub Keeps-bind :
      {I : S → Type ℓ} {m : Exec S A} {f : A → Exec S B}
      → Keeps I m
      → ((a : A) → Keeps I (f a))
      → Keeps I (m >>= f)
  unfolding ◌>>=◌
  Keeps-bind {I} {m} {f} hm hf = record { at = λ s h. continue-keeps I (m s) f (hm.at s h) hf }

module _ {ℓ} {S A : Type ℓ} where
  recover-keeps :
      (I : S → Type ℓ) (r : Result A × S) (handler : Error → Exec S A)
      → I r.1
      → ((e : Error) → Keeps I (handler e))
      → I (recover r handler).1
  recover-keeps I (ok a, s) handler h k = h
  recover-keeps I (err e, s) handler h k = (k e).at s h

module _ {ℓ} {S A : Type ℓ} {I : S → Type ℓ} where
  pub Keeps-pure : (a : A) → Keeps I (pure a)
  unfolding pure
  Keeps-pure a = record { at = λ s h. h }

  pub Keeps-throw : (e : Error) → Keeps I (throw {A = A} e)
  unfolding throw
  Keeps-throw e = record { at = λ s h. h }

  pub Keeps-lift : (r : Result A) → Keeps I (lift r)
  unfolding lift
  Keeps-lift r = record { at = λ s h. h }

  pub Keeps-gets : (f : S → A) → Keeps I (gets f)
  unfolding gets
  Keeps-gets f = record { at = λ s h. h }

  pub Keeps-if : (b : Bool) {m n : Exec S A} → Keeps I m → Keeps I n → Keeps I (if b then m else n)
  Keeps-if true hm hn = hm
  Keeps-if false hm hn = hn

  pub Keeps-try :
      {m : Exec S A} {handler : Error → Exec S A}
      → Keeps I m
      → ((e : Error) → Keeps I (handler e))
      → Keeps I (try_catch m handler)
  unfolding try_catch
  Keeps-try {m} {handler} hm hh = record {
    at = λ s h. recover-keeps I (m s) handler (hm.at s h) hh;
  }

module _ {ℓ} {S : Type ℓ} {I : S → Type ℓ} where
  pub Keeps-modify : (f : S → S) → ((s : S) → I s → I (f s)) → Keeps I (modify f)
  unfolding modify
  Keeps-modify f h = record { at = h }

  pub Keeps-when : (b : Bool) {m : Exec S (Unit {ℓ})} → Keeps I m → Keeps I (when b m)
  Keeps-when true hm = hm
  Keeps-when false hm = record { at = λ s h. h }

pub ruleset keeps_rules =
    (Keeps-bind, Keeps-pure, Keeps-throw, Keeps-lift, Keeps-gets, Keeps-if, Keeps-try, Keeps-when)
