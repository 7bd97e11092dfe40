-- ===== src/Exec.antt =====
-- The asynchronous code as actions on the state of one process: an action returns or throws, and
-- what it wrote before it threw stays written. `await` runs an action to its end.
pub mod Triple
pub mod Keeps
use mathlib.Core.Path.{◌≡◌}
use nastroyka_claude.Base.{
  Bool, true, false, ℕ, ◌+◌, Option, none, some, List, [], ◌∷◌, ◌++◌, Text, Map,
}
use nastroyka_claude.Domain.Json.{Json}
use nastroyka_claude.Domain.Types.{MemoryRecord}
use nastroyka_claude.Domain.Errors.{Error, Result, ok, err}
use nastroyka_claude.Repo.{Repo, AuditRecord, audit}

abbrev pub Exec {ℓ} : Type ℓ → Type ℓ → Type ℓ
Exec S A = S → Result A × S

module _ {ℓ} {S A : Type ℓ} where
  unfoldable pub pure : A → Exec S A
  pure a s = (ok a, s)

  unfoldable pub throw : Error → Exec S A
  throw e s = (err e, s)

  unfoldable pub lift : Result A → Exec S A
  lift r s = (r, s)

  unfoldable pub gets : (S → A) → Exec S A
  gets f s = (ok (f s), s)

module _ {ℓ} {S A B : Type ℓ} where
  abbrev pub continue : Result A × S → (A → Exec S B) → Result B × S
  continue (ok a, s) f = f a s
  continue (err e, s) f = (err e, s)

  infixl 10 ◌>>=◌ ◌>>◌
  unfoldable pub ◌>>=◌ : Exec S A → (A → Exec S B) → Exec S B
  ◌>>=◌ m f s = continue (m s) f

  abbrev pub ◌>>◌ : Exec S A → Exec S B → Exec S B
  m >> n = m >>= λ _. n

module _ {ℓ} {S A : Type ℓ} where
  abbrev pub recover : Result A × S → (Error → Exec S A) → Result A × S
  recover (ok a, s) handler = (ok a, s)
  recover (err e, s) handler = handler e s

  -- try { … } catch (err) { … }
  unfoldable pub try_catch : Exec S A → (Error → Exec S A) → Exec S A
  try_catch m handler s = recover (m s) handler

module _ {ℓ} {S : Type ℓ} where
  unfoldable pub modify : (S → S) → Exec S (Unit {ℓ})
  modify f s = (ok tt, f s)

  abbrev pub when : Bool → Exec S (Unit {ℓ}) → Exec S (Unit {ℓ})
  when true m = m
  when false m = λ s. (ok tt, s)
