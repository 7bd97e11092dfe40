-- ===== src/Teamly/Slug.antt =====
-- teamly/src/lib/slug.ts. Texts are lists of code points here. Lower-casing with NFKC and the class
-- [\p{L}\p{N}] are JavaScript's, and parameters.
pub mod Shape
pub mod Unique
use nastroyka_claude.Base.{
  ℕ, zero, suc, ◌+◌, ◌≤◌, ◌<◌, ◌≡◌, ◌≢◌, refl, Bool, true, false, not, ◌&&◌, ◌||◌, List, [], ◌∷◌,
  ◌++◌, length, Text, text, eq_text, mem_text, decimal, arith, if◌then◌else◌, Option, none, some,
  ◌==◌, ◌⊎◌, inl, inr, all,
}

pub record Unicode : Type 0 where
  pub lower_nfkc : Text → Text
  pub is_word : ℕ → Bool

-- .replace(/[^\p{L}\p{N}]+/gu, '-'): a run of other characters is one dash. The flag says that the
-- run has begun.
unfoldable pub dashed : (ℕ → Bool) → Bool → Text → Text
dashed is_word inside [] = []
dashed is_word inside (c ∷ s) =
    let rest = dashed is_word (not (is_word c)) s in
    if is_word c then c ∷ rest else if inside then rest else 45 ∷ rest

-- .replace(/^-+|-+$/g, '')
unfoldable pub strip_left : Text → Text
strip_left [] = []
strip_left (c ∷ s) = let rest = strip_left s in if c == 45 then rest else c ∷ s

abbrev dash_before_end : ℕ → Text → Bool
dash_before_end c [] = c == 45
dash_before_end c (d ∷ s) = false

unfoldable pub strip_right : Text → Text
strip_right [] = []
strip_right (c ∷ s) = let rest = strip_right s in if dash_before_end c rest then [] else c ∷ rest

abbrev or_untitled : Text → Text
or_untitled [] = text "untitled"
or_untitled (c ∷ s) = c ∷ s

unfoldable pub slugify : Unicode → Text → Text
slugify u input =
    or_untitled (strip_right (strip_left (dashed u.is_word false (u.lower_nfkc input))))

-- `${base}-${n}`
abbrev pub candidate : Text → ℕ → Text
candidate base n = base ++ (45 ∷ decimal n)

-- The `while` loop from n on; it ends with `none` only where the fuel runs out.
unfoldable pub next_free : ℕ → Text → List Text → ℕ → Option Text
next_free zero base taken n = none
next_free (suc fuel) base taken n =
    let later = next_free fuel base taken (n + 1) in
    if mem_text (candidate base n) taken then later else some (candidate base n)

unfoldable pub unique_slug : Unicode → Text → List Text → Option Text
unique_slug u desired taken =
    if not (mem_text (slugify u desired) taken)
    then some (slugify u desired)
    else next_free (suc (length taken)) (slugify u desired) taken 2
