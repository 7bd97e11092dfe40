-- ===== src/Teamly/Slug/Shape.antt =====
-- teamly/src/lib/slug.ts, slugify: the characters and dashes of a slug.
use nastroyka_claude.Base.{
  Bool-cases, ℕ, ◌≡◌, refl, Bool, true, false, not, ◌&&◌, [], ◌∷◌, Text, text, arith, if◌then◌else◌,
  ◌==◌, ◌⊎◌, inl, inr, all,
}
use nastroyka_claude.Teamly.Slug.{
  Unicode, dashed, strip_left, strip_right, dash_before_end, or_untitled, slugify,
}

-- A slug, read from left to right: words with single dashes between them. The flag says that a word
-- has to follow.
unfoldable pub is_slug : (ℕ → Bool) → Bool → Text → Bool
is_slug is_word due [] = not due
is_slug is_word due (c ∷ s) =
    if is_word c then is_slug is_word false s else c == 45 && not due && is_slug is_word true s

-- The same where a dash may stand at the end.
is_dashed : (ℕ → Bool) → Bool → Text → Bool
is_dashed is_word due [] = true
is_dashed is_word due (c ∷ s) =
    if is_word c then is_dashed is_word false s else c == 45 && not due && is_dashed is_word true s

module _ (w : ℕ → Bool) where
  is_dashed_weaken : (s : Text) → is_dashed w true s ≡ true → is_dashed w false s ≡ true
  unfolding is_dashed
  is_dashed_weaken [] h = refl
  is_dashed_weaken (c ∷ s) h = ground arith

  dashed-is_dashed : (inside : Bool) (s : Text) → is_dashed w inside (dashed w inside s) ≡ true
  unfolding is_dashed dashed
  dashed-is_dashed inside [] = refl
  dashed-is_dashed inside (c ∷ s) =
      ground (
        arith,
        dashed-is_dashed true s,
        dashed-is_dashed false s,
        is_dashed_weaken (dashed w true s),
      )

  strip_left-is_dashed :
      (s : Text) → is_dashed w false s ≡ true → is_dashed w true (strip_left s) ≡ true
  unfolding is_dashed strip_left
  strip_left-is_dashed [] h = refl
  strip_left-is_dashed (c ∷ s) h = ground (arith, strip_left-is_dashed s, is_dashed_weaken s)

  abbrev begins : Bool → ℕ → Bool
  begins due c = if w c then true else c == 45 && not due

  strip_step :
      (due : Bool) (c : ℕ) (t : Text)
      → begins due c ≡ true
      → (t ≡ []) ⊎ (is_slug w (not (w c)) t ≡ true)
      → ((if dash_before_end c t then [] else c ∷ t) ≡ [])
        ⊎ (is_slug w due (if dash_before_end c t then [] else c ∷ t) ≡ true)
  unfolding is_slug
  strip_step due c [] h k = elim (Bool-cases (c == 45)) [
    | inl e ↦ rw e (inl refl)
    | inr e ↦ rw e (inr (ground arith))
  ]
  strip_step due c (d ∷ t) h (inl k) = cc
  strip_step due c (d ∷ t) h (inr k) =
      inr (elim (Bool-cases (w c)) [ inl e ↦ rw e (ground arith) | inr e ↦ rw e (ground arith) ])

  rest_is_dashed :
      (due : Bool) (c : ℕ) (s : Text)
      → is_dashed w due (c ∷ s) ≡ true
      → (begins due c ≡ true) × (is_dashed w (not (w c)) s ≡ true)
  unfolding is_dashed
  rest_is_dashed due c s h = elim (Bool-cases (w c)) [
    | inl e ↦ rw e (refl, ground arith)
    | inr e ↦ rw e (ground arith, ground arith)
  ]

  strip_right-is_slug :
      (due : Bool) (s : Text)
      → is_dashed w due s ≡ true
      → (strip_right s ≡ []) ⊎ (is_slug w due (strip_right s) ≡ true)
  unfolding strip_right
  strip_right-is_slug due [] h = inl refl
  strip_right-is_slug due (c ∷ s) h =
      let parts = rest_is_dashed due c s h in
      strip_step due c (strip_right s) parts.0 (strip_right-is_slug (not (w c)) s parts.1)

  or_untitled-is_slug :
      (t : Text)
      → all w (text "untitled") ≡ true
      → (t ≡ []) ⊎ (is_slug w true t ≡ true)
      → is_slug w true (or_untitled t) ≡ true
  unfolding is_slug
  or_untitled-is_slug [] h k = ground arith
  or_untitled-is_slug (c ∷ t) h (inl k) = cc
  or_untitled-is_slug (c ∷ t) h (inr k) = k

-- Where the letters of "untitled" are letters, the slug of any text is made of letters and digits
-- with single dashes between them, and is not empty.
pub slugify-is_slug :
    (u : Unicode) (input : Text)
    → all u.is_word (text "untitled") ≡ true
    → is_slug u.is_word true (slugify u input) ≡ true
unfolding slugify
slugify-is_slug u input letters = or_untitled-is_slug u.is_word _ letters (
    strip_right-is_slug u.is_word true _
      (strip_left-is_dashed u.is_word _ (dashed-is_dashed u.is_word false (u.lower_nfkc input))))
