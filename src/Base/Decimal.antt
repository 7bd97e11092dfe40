-- ===== src/Base/Decimal.antt =====
-- Decimal texts: `String(n)`, and reading one back.
use nastroyka_claude.Base.{
  ℕ, zero, suc, ◌+◌, ◌-◌, ◌*◌, ◌/◌, ◌%◌, ◌<◌, ◌≡◌, refl, sym, ap, ◌∙◌, List, [], ◌∷◌, ◌++◌, Text,
  decimal, arith, ltb, Bool-cases, inl, inr, tests,
}
use nastroyka_claude.Base.Texts.{decimal_from}

value_from : ℕ → Text → ℕ
value_from acc [] = acc
value_from acc (c ∷ s) = value_from (acc * 10 + (c - 48)) s

value_from-append :
    (acc d : ℕ) (s : Text) → value_from acc (s ++ d ∷ []) ≡ value_from acc s * 10 + (d - 48)
unfolding value_from
value_from-append acc d [] = refl
value_from-append acc d (c ∷ s) = value_from-append (acc * 10 + (c - 48)) d s

value-decimal_from : (f n : ℕ) → n < f → value_from 0 (decimal_from f n) ≡ n
unfolding value_from decimal_from
value-decimal_from zero n h = absurd (omega arith)
value-decimal_from (suc f) n h = elim (Bool-cases (ltb n 10)) [
  | inl e ↦ rw e (omega arith)
  | inr e ↦ rw e (
      let ih : value_from 0 (decimal_from f (n / 10)) ≡ n / 10 =
        value-decimal_from f (n / 10) (grind (tests, e)) in
      omega (arith, ih, value_from-append 0 (48 + n % 10) (decimal_from f (n / 10))))
]

-- Numbers with the same digits are equal.
pub decimal_injective : (m n : ℕ) → decimal m ≡ decimal n → m ≡ n
unfolding decimal
decimal_injective m n e =
    sym (value-decimal_from (suc m) m (omega arith))
    ∙ ap (value_from 0) e
    ∙ value-decimal_from (suc n) n (omega arith)

pub append-cancel {ℓ} : {A : Type ℓ} (s : List A) {t u : List A} → s ++ t ≡ s ++ u → t ≡ u
append-cancel [] e = e
append-cancel (c ∷ s) e = append-cancel s (cc)
