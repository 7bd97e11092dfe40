-- ===== src/Exec/Triple.antt =====
-- Hoare triples for actions, with a postcondition for each way to end, and one rule for each way to
-- build an action.
use nastroyka_claude.Base.{◌≡◌, refl, sym, subst, Bool, true, false, if◌then◌else◌}
use nastroyka_claude.Domain.Errors.{Error, Result, ok, err}
use nastroyka_claude.Exec.Keeps.{Keeps}
use nastroyka_claude.Exec.{
  Exec, pure, throw, lift, gets, continue, ◌>>=◌, ◌>>◌, recover, try_catch, when, modify,
}

module _ {ℓ} {S A : Type ℓ} where
  -- What holds at the end: `Q` of a returned value and the state, `E` of a thrown error and the state.
  abbrev pub Ends : (A → S → Type ℓ) → (Error → S → Type ℓ) → Result A × S → Type ℓ
  Ends Q E (ok a, s) = Q a s
  Ends Q E (err e, s) = E e s

  pub record Triple (P : S → Type ℓ) (m : Exec S A) (Q : A → S → Type ℓ) (E : Error → S → Type ℓ)
      : Type ℓ where
    pub run : (s : S) → P s → Ends Q E (m s)

module _ {ℓ} {S A : Type ℓ} where
  pub recover-Ends :
      (r : Result A × S) (handler : Error → Exec S A) (Q : A → S → Type ℓ)
      (D E : Error → S → Type ℓ)
      → Ends Q D r
      → ((e : Error) (s : S) → D e s → Ends Q E (handler e s))
      → Ends Q E (recover r handler)
  recover-Ends (ok a, s) handler Q D E h k = h
  recover-Ends (err e, s) handler Q D E h k = k e s h

  pub Ends-mono :
      (Q Q' : A → S → Type ℓ) (E E' : Error → S → Type ℓ) (r : Result A × S)
      → ((a : A) (s : S) → Q a s → Q' a s)
      → ((e : Error) (s : S) → E e s → E' e s)
      → Ends Q E r
      → Ends Q' E' r
  Ends-mono Q Q' E E' (ok a, s) hq he h = hq a s h
  Ends-mono Q Q' E E' (err e, s) hq he h = he e s h

module _ {ℓ} {S A B : Type ℓ} where
  continue-Ends :
      (r : Result A × S) (f : A → Exec S B) (Q : A → S → Type ℓ) (R : B → S → Type ℓ)
      (E : Error → S → Type ℓ)
      → Ends Q E r
      → ((a : A) (s : S) → Q a s → Ends R E (f a s))
      → Ends R E (continue r f)
  continue-Ends (ok a, s) f Q R E h k = k a s h
  continue-Ends (err e, s) f Q R E h k = h

  pub bind :
      {P : S → Type ℓ} {Q : A → S → Type ℓ} {R : B → S → Type ℓ} {E : Error → S → Type ℓ}
      {m : Exec S A} {f : A → Exec S B}
      → Triple P m Q E
      → ((a : A) → Triple (Q a) (f a) R E)
      → Triple P (m >>= f) R E
  unfolding ◌>>=◌
  bind {Q} {R} {E} {m} {f} hm hf = record {
    run = λ s p. continue-Ends (m s) f Q R E (hm.run s p) (λ a t q. (hf a).run t q);
  }

module _ {ℓ} {S A : Type ℓ} {P : S → Type ℓ} {Q : A → S → Type ℓ} {E : Error → S → Type ℓ} where
  pub pure_rule : (a : A) → ((s : S) → P s → Q a s) → Triple P (pure a) Q E
  unfolding pure
  pure_rule a h = record { run = h }

  pub throw_rule : (e : Error) → ((s : S) → P s → E e s) → Triple P (throw {A = A} e) Q E
  unfolding throw
  throw_rule e h = record { run = h }

  pub lift_rule : (r : Result A) → ((s : S) → P s → Ends Q E (r, s)) → Triple P (lift r) Q E
  unfolding lift
  lift_rule r h = record { run = h }

  pub gets_rule : (f : S → A) → ((s : S) → P s → Q (f s) s) → Triple P (gets f) Q E
  unfolding gets
  gets_rule f h = record { run = h }

  pub if_rule :
      (b : Bool) {m n : Exec S A}
      → (b ≡ true → Triple P m Q E)
      → (b ≡ false → Triple P n Q E)
      → Triple P (if b then m else n) Q E
  if_rule true hm hn = hm refl
  if_rule false hm hn = hn refl

  pub try_rule :
      {D : Error → S → Type ℓ} {m : Exec S A} {handler : Error → Exec S A}
      → Triple P m Q D
      → ((e : Error) → Triple (D e) (handler e) Q E)
      → Triple P (try_catch m handler) Q E
  unfolding try_catch
  try_rule {D} {m} {handler} hm hh = record {
    run = λ s p. recover-Ends (m s) handler Q D E (hm.run s p) (λ e t d. (hh e).run t d);
  }

module _ {ℓ} {S : Type ℓ} {P : S → Type ℓ} {Q : Unit {ℓ} → S → Type ℓ}
    {E : Error → S → Type ℓ} where
  pub modify_rule : (f : S → S) → ((s : S) → P s → Q tt (f s)) → Triple P (modify f) Q E
  unfolding modify
  modify_rule f h = record { run = h }

  pub when_rule :
      (b : Bool) {m : Exec S (Unit {ℓ})}
      → (b ≡ true → Triple P m Q E)
      → (b ≡ false → (s : S) → P s → Q tt s)
      → Triple P (when b m) Q E
  when_rule true hm h = hm refl
  when_rule false hm h = record { run = h refl }

module _ {ℓ} {S A : Type ℓ} {P P' : S → Type ℓ} {Q Q' : A → S → Type ℓ}
    {E E' : Error → S → Type ℓ} where
  pub weaken :
      {m : Exec S A}
      → ((s : S) → P' s → P s)
      → Triple P m Q E
      → ((a : A) (s : S) → Q a s → Q' a s)
      → ((e : Error) (s : S) → E e s → E' e s)
      → Triple P' m Q' E'
  weaken {m} hp hm hq he = record {
    run = λ s p. Ends-mono Q Q' E E' (m s) hq he (hm.run s (hp s p));
  }

module _ {ℓ} {S A : Type ℓ} where
  keeps-Ends : (I : S → Type ℓ) (r : Result A × S) → I r.1 → Ends (λ _. I) (λ _. I) r
  keeps-Ends I (ok a, s) h = h
  keeps-Ends I (err e, s) h = h

  -- An invariant is a triple with itself behind both ends.
  pub Keeps→Triple : {I : S → Type ℓ} {m : Exec S A} → Keeps I m → Triple I m (λ _. I) (λ _. I)
  Keeps→Triple {I} {m} h = record { run = λ s i. keeps-Ends I (m s) (h.at s i) }

module _ {ℓ} {S A B : Type ℓ} {P : S → Type ℓ} {Q : B → S → Type ℓ} {E : Error → S → Type ℓ} where
  -- A computed value that is known.
  pub eq_rule :
      (f : A → Exec S B) (a b : A) → Triple P (f b) Q E → Triple (λ s. (a ≡ b) × P s) (f a) Q E
  eq_rule f a b t = record { run = λ s h. subst (λ c. Ends Q E (f c s)) (sym h.0) (t.run s h.1) }

  pub then_keeps :
      {I : S → Type ℓ} {m : Exec S A} {n : Exec S B}
      → Triple P m (λ _. I) E
      → Keeps I n
      → ((b : B) (s : S) → I s → Q b s)
      → ((e : Error) (s : S) → I s → E e s)
      → Triple P (m >> n) Q E
  then_keeps hm hn hq he = bind hm (λ _. weaken (λ s i. i) (Keeps→Triple hn) hq he)
