-- ===== src/Base/Sets.antt =====
-- Lists of texts as sets: JavaScript's `Set` of an array, removal, and what two sets with one inside
-- the other have to do with their sizes.
use nastroyka_claude.Base.{
  ◌+◌, ◌≤◌, ◌≡◌, refl, ap, sym, ◌∙◌, Bool, true, false, not, ◌||◌, ◌&&◌, List, [], ◌∷◌, ◌++◌, any,
  keep, length, Text, eq_text, eq_text_iff, eq_text_refl, mem_text, arith, Bool-cases, inl, inr,
  if◌then◌else◌, length-keep-le,
}

-- [...new Set(xs)]
unfoldable pub unique_from : List Text → List Text → List Text
unique_from seen [] = []
unique_from seen (x ∷ xs) =
    if mem_text x seen then unique_from seen xs else x ∷ unique_from (x ∷ seen) xs

abbrev pub without : Text → List Text → List Text
without e xs = keep (λ (x : Text). not (eq_text x e)) xs

pub any-append :
    {A : Type 0} (p : A → Bool) (xs : List A) (x : A) → p x ≡ true → any p (xs ++ x ∷ []) ≡ true
any-append p [] x h = ground (arith, h)
any-append p (y ∷ xs) x h = ground (arith, any-append p xs x h)

pub mem-append :
    (e f : Text) (xs : List Text) → mem_text f (xs ++ e ∷ []) ≡ (mem_text f xs || eq_text f e)
unfolding mem_text
mem-append e f [] = ground arith
mem-append e f (x ∷ xs) = ground (arith, mem-append e f xs)

pub mem-without :
    (e f : Text) (xs : List Text) → mem_text f (without e xs) ≡ (mem_text f xs && not (eq_text f e))
unfolding mem_text
mem-without e f [] = refl
mem-without e f (x ∷ xs) =
    ground (arith, mem-without e f xs, eq_text_iff x e, eq_text_iff f x, eq_text_iff f e)

mem_text-same : (f g : Text) (xs : List Text) → f ≡ g → mem_text f xs ≡ mem_text g xs
mem_text-same f g xs e = ap (λ h. mem_text h xs) e

pub mem_unique :
    (f : Text) (seen xs : List Text)
    → mem_text f (unique_from seen xs) ≡ (mem_text f xs && not (mem_text f seen))
unfolding mem_text unique_from
mem_unique f seen [] = refl
mem_unique f seen (x ∷ xs) = ground (
  arith,
  mem_unique f seen xs,
  mem_unique f (x ∷ seen) xs,
  eq_text_iff f x,
  mem_text-same f x seen,
)

-- No text stands twice.
abbrev pub IsDistinct : List Text → Type 0
IsDistinct [] = Unit
IsDistinct (x ∷ xs) = (mem_text x xs ≡ false) × IsDistinct xs

pub unique_from-IsDistinct : (seen xs : List Text) → IsDistinct (unique_from seen xs)
unfolding unique_from mem_text
unique_from-IsDistinct seen [] = tt
unique_from-IsDistinct seen (x ∷ xs) = elim (Bool-cases (mem_text x seen)) [
  | inl e ↦ rw e (unique_from-IsDistinct seen xs)
  | inr e ↦ rw e (
    ground (arith, mem_unique x (x ∷ seen) xs, eq_text_refl x),
    unique_from-IsDistinct (x ∷ seen) xs,
  )
]

length-without :
    (x : Text) (ys : List Text) → mem_text x ys ≡ true → length (without x ys) + 1 ≤ length ys
unfolding mem_text
length-without x [] h = cc
length-without x (y ∷ ys) h = ground (
  arith,
  length-without x ys,
  eq_text_iff x y,
  eq_text_iff y x,
  length-keep-le (λ (z : Text). not (eq_text z x)) ys,
)

-- A set inside another is no larger.
pub length-subset-le :
    (xs ys : List Text)
    → IsDistinct xs
    → ((z : Text) → mem_text z xs ≡ true → mem_text z ys ≡ true)
    → length xs ≤ length ys
unfolding mem_text
length-subset-le [] ys d h = omega arith
length-subset-le (x ∷ xs) ys d h =
    let inside : (z : Text) → mem_text z xs ≡ true → mem_text z (without x ys) ≡ true =
      λ z m. ground (arith, h z, mem-without x z ys, eq_text_iff z x, mem_text-same z x xs) in
    let smaller : length xs ≤ length (without x ys) =
      length-subset-le xs (without x ys) d.1 inside in
    omega (arith, length-without x ys (h x (ground (arith, eq_text_refl x))))

too_large :
    (z : Text) (xs ys : List Text)
    → IsDistinct xs
    → ((z : Text) → mem_text z xs ≡ true → mem_text z ys ≡ true)
    → length xs ≡ length ys
    → mem_text z xs ≡ false
    → mem_text z ys ≡ true
    → ⊥
unfolding mem_text
too_large z xs ys d h e p q =
    let larger : length (z ∷ xs) ≤ length ys =
      length-subset-le (z ∷ xs) ys (p, d)
        (λ w m. ground (arith, h w, eq_text_iff w z, mem_text-same w z ys)) in
    omega (arith, larger)

-- A set inside another of the same size is the other.
pub subset-same_length :
    (xs ys : List Text)
    → IsDistinct xs
    → ((z : Text) → mem_text z xs ≡ true → mem_text z ys ≡ true)
    → length xs ≡ length ys
    → (z : Text) → mem_text z xs ≡ mem_text z ys
subset-same_length xs ys d h e z = both (mem_text z xs) (mem_text z ys) refl refl
  where
    both : (b c : Bool) → mem_text z xs ≡ b → mem_text z ys ≡ c → mem_text z xs ≡ mem_text z ys
    both true c p q = p ∙ sym (h z p)
    both false false p q = p ∙ sym q
    both false true p q = absurd (too_large z xs ys d h e p q)
