-- ===== src/Teamly/Slug/Unique.antt =====
-- teamly/src/lib/slug.ts, uniqueSlug: the search for a free slug.
use nastroyka_claude.Base.{
  ℕ, zero, suc, ◌+◌, ◌<◌, ◌≡◌, refl, true, false, List, [], ◌∷◌, length, Text, eq_text_iff,
  mem_text, decimal, arith, some, Bool-cases, inl, inr, ◌⊎◌,
}
use nastroyka_claude.Base.Decimal.{decimal_injective, append-cancel}
use nastroyka_claude.Base.Sets.{IsDistinct, length-subset-le}
use nastroyka_claude.Teamly.Slug.{Unicode, slugify, candidate, next_free, unique_slug}

abbrev candidates : ℕ → Text → ℕ → List Text
candidates zero base n = []
candidates (suc k) base n = candidate base n ∷ candidates k base (n + 1)

length-candidates : (k : ℕ) (base : Text) (n : ℕ) → length (candidates k base n) ≡ k
length-candidates zero base n = refl
length-candidates (suc k) base n = omega (arith, length-candidates k base (n + 1))

candidate_injective : (base : Text) (m n : ℕ) → candidate base m ≡ candidate base n → m ≡ n
candidate_injective base m n e =
    let tails : 45 ∷ decimal m ≡ 45 ∷ decimal n = append-cancel base e in decimal_injective m n (cc)

mem-candidates_later :
    (k : ℕ) (base : Text) (m n : ℕ)
    → m < n
    → mem_text (candidate base m) (candidates k base n) ≡ false
unfolding mem_text
mem-candidates_later zero base m n h = refl
mem-candidates_later (suc k) base m n h = ground (
  arith,
  mem-candidates_later k base m (n + 1),
  eq_text_iff (candidate base m) (candidate base n),
  candidate_injective base m n,
)

candidates-IsDistinct : (k : ℕ) (base : Text) (n : ℕ) → IsDistinct (candidates k base n)
candidates-IsDistinct zero base n = tt
candidates-IsDistinct (suc k) base n =
    (mem-candidates_later k base n (n + 1) (omega arith), candidates-IsDistinct k base (n + 1))

-- The search finds a candidate that is free, or all of them are taken.
next_free_cases :
    (k : ℕ) (base : Text) (taken : List Text) (n : ℕ)
    → ((s : Text) × (next_free k base taken n ≡ some s) × (mem_text s taken ≡ false))
      ⊎ ((z : Text) → mem_text z (candidates k base n) ≡ true → mem_text z taken ≡ true)
unfolding next_free mem_text
next_free_cases zero base taken n = inr (λ z h. cc)
next_free_cases (suc k) base taken n = elim (Bool-cases (mem_text (candidate base n) taken)) [
  | inr free ↦ rw free (inl (candidate base n, refl, free))
  | inl old ↦ rw old (elim (next_free_cases k base taken (n + 1)) [
    | inl found ↦ inl found
    | inr all_taken ↦ inr (λ z h. ground (arith, all_taken z, eq_text_iff z (candidate base n)))
  ])
]

unique_slug_from :
    (taken : List Text) (base : Text)
    → (s : Text) × (next_free (suc (length taken)) base taken 2 ≡ some s)
      × (mem_text s taken ≡ false)
unique_slug_from taken base = elim (next_free_cases (suc (length taken)) base taken 2) [
  | inl found ↦ found
  | inr all_taken ↦ absurd (
      omega (
        arith,
        length-subset-le (candidates (suc (length taken)) base 2) taken
            (candidates-IsDistinct (suc (length taken)) base 2) all_taken,
        length-candidates (suc (length taken)) base 2,
      ))
]

-- The search for a free slug ends within one round more than there are slugs taken, and gives a slug
-- that is not among them; where the plain slug is free it is that one.
pub unique_slug_free :
    (u : Unicode) (desired : Text) (taken : List Text)
    → (s : Text) × (unique_slug u desired taken ≡ some s)
      × (mem_text s taken ≡ false)
      × ((mem_text (slugify u desired) taken ≡ true) ⊎ (s ≡ slugify u desired))
unfolding unique_slug
unique_slug_free u desired taken = elim (Bool-cases (mem_text (slugify u desired) taken)) [
  | inr free ↦ rw free (slugify u desired, refl, free, inr refl)
  | inl old ↦ rw old (
      let (s, found, new) = unique_slug_from taken (slugify u desired) in (s, found, new, inl refl))
]
