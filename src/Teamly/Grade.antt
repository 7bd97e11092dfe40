-- ===== src/Teamly/Grade.antt =====
-- teamly/src/lib/lms/grade.ts. `Math.round((c / t) * 100)` is floating-point arithmetic of the
-- language, and a parameter.
use nastroyka_claude.Base.{
  ℕ, ◌+◌, ◌≤◌, ◌≡◌, ◌↔◌, refl, sym, Bool, true, ◌&&◌, Option, none, some, List, [], ◌∷◌, all,
  length, Text, Map, eq_text, eq_text_iff, eq_text_refl, mem_text, arith, if◌then◌else◌, ltb, leb,
  ◌==◌, Bool-cases, inl, inr,
}
use nastroyka_claude.Base.Maps
use nastroyka_claude.Base.Sets.{
  length-subset-le, unique_from, mem_unique, unique_from-IsDistinct, subset-same_length,
}

pub record GradableQuestion : Type 0 where
  pub id : Text
  pub correct_option_ids : List Text

pub record QuizResult : Type 0 where
  pub total : ℕ
  pub correct : ℕ
  pub score : ℕ
  pub passed : Bool
  pub per_question : Map Bool

-- submission[q.id] ?? []
abbrev pub answer_of : Option (List Text) → List Text
answer_of none = []
answer_of (some ids) = ids

abbrev pub to_set : List Text → List Text
to_set xs = unique_from [] xs

unfoldable pub is_correct : List Text → List Text → Bool
is_correct selected expected =
    length (to_set selected) == length (to_set expected)
    && all (λ (id : Text). mem_text id (to_set selected)) (to_set expected)

unfoldable pub question_ok : Map (List Text) → GradableQuestion → Bool
unfolding is_correct
question_ok submission q = is_correct (answer_of (Maps.get q.id submission)) q.correct_option_ids

-- The loop over the questions: the count and the marks.
unfoldable pub mark : Map (List Text) → List GradableQuestion → ℕ → Map Bool → ℕ × Map Bool
mark submission [] correct marks = (correct, marks)
mark submission (q ∷ qs) correct marks =
    mark submission qs (if question_ok submission q then correct + 1 else correct)
      (Maps.set q.id (question_ok submission q) marks)

unfoldable pub score_of : (ℕ → ℕ → ℕ) → ℕ → ℕ → ℕ
score_of percent correct total = if total == 0 then 0 else percent correct total

unfoldable pub grade_quiz :
    (percent : ℕ → ℕ → ℕ) → List GradableQuestion → Map (List Text) → ℕ → QuizResult
unfolding mark score_of
grade_quiz percent questions submission passing_score =
    let (correct, marks) = mark submission questions 0 [] in
    let score = score_of percent correct (length questions) in
    record {
      total = length questions;
      correct = correct;
      score = score;
      passed = ltb 0 (length questions) && leb passing_score score;
      per_question = marks;
    }

all_mem :
    (p : Text → Bool) (xs : List Text)
    → all p xs ≡ true
    → (z : Text) → mem_text z xs ≡ true
    → p z ≡ true
unfolding mem_text
all_mem p [] h z m = cc
all_mem p (x ∷ xs) h z m = elim (Bool-cases (eq_text z x)) [
  | inl e ↦ rw ((eq_text_iff z x).0 e) (ground arith)
  | inr e ↦ all_mem p xs (ground arith) z (ground (arith, e))
]

mem_all :
    (p : Text → Bool) (xs : List Text)
    → ((z : Text) → mem_text z xs ≡ true → p z ≡ true)
    → all p xs ≡ true
unfolding mem_text
mem_all p [] h = refl
mem_all p (x ∷ xs) h =
    let later : all p xs ≡ true = mem_all p xs (λ z m. h z (ground arith)) in
    ground (arith, later, h x (ground (arith, eq_text_refl x)))

mem-to_set : (z : Text) (xs : List Text) → mem_text z (to_set xs) ≡ mem_text z xs
unfolding mem_text
mem-to_set z xs = ground (arith, mem_unique z [] xs)

same_members :
    (selected expected : List Text)
    → is_correct selected expected ≡ true
    → (z : Text) → mem_text z selected ≡ mem_text z expected
unfolding is_correct
same_members selected expected h z =
    let size : length (to_set expected) ≡ length (to_set selected) = ground arith in
    let inside : all (λ (id : Text). mem_text id (to_set selected)) (to_set expected) ≡ true =
      ground arith in
    let same : mem_text z (to_set expected) ≡ mem_text z (to_set selected) =
      subset-same_length (to_set expected) (to_set selected) (unique_from-IsDistinct [] expected)
        (all_mem (λ (id : Text). mem_text id (to_set selected)) (to_set expected) inside) size z in
    ground (arith, same, mem-to_set z selected, mem-to_set z expected)

set-subset :
    (xs ys : List Text)
    → ((z : Text) → mem_text z xs ≡ mem_text z ys)
    → (z : Text) → mem_text z (to_set xs) ≡ true
    → mem_text z (to_set ys) ≡ true
set-subset xs ys h z m = ground (arith, h z, mem-to_set z xs, mem-to_set z ys)

members_same :
    (selected expected : List Text)
    → ((z : Text) → mem_text z selected ≡ mem_text z expected)
    → is_correct selected expected ≡ true
unfolding is_correct
members_same selected expected h =
    let back : (z : Text) → mem_text z expected ≡ mem_text z selected = λ z. sym (h z) in
    let inside : all (λ (id : Text). mem_text id (to_set selected)) (to_set expected) ≡ true =
      mem_all _ (to_set expected) (set-subset expected selected back) in
    let up =
      length-subset-le (to_set selected) (to_set expected) (unique_from-IsDistinct [] selected)
        (set-subset selected expected h) in
    let down =
      length-subset-le (to_set expected) (to_set selected) (unique_from-IsDistinct [] expected)
        (set-subset expected selected back) in
    ground (arith, inside, up, down)

-- An answer is correct exactly when it selects the options that are expected, whatever their order
-- and however often they are named.
pub is_correct_iff :
    (selected expected : List Text)
    → (is_correct selected expected ≡ true)
      ↔ ((z : Text) → mem_text z selected ≡ mem_text z expected)
is_correct_iff selected expected = (same_members selected expected, members_same selected expected)

mark_bounds :
    (submission : Map (List Text)) (qs : List GradableQuestion) (correct : ℕ) (marks : Map Bool)
    → (mark submission qs correct marks).0 ≤ correct + length qs
unfolding mark
mark_bounds submission [] correct marks = omega arith
mark_bounds submission (q ∷ qs) correct marks = ground (
  arith,
  mark_bounds submission qs correct (Maps.set q.id (question_ok submission q) marks),
  mark_bounds submission qs (correct + 1) (Maps.set q.id (question_ok submission q) marks),
)

-- Where the percentage of a part is at most 100, the score is at most 100 and no more questions are
-- correct than there are.
pub grade_quiz_bounds :
    (percent : ℕ → ℕ → ℕ) (questions : List GradableQuestion) (submission : Map (List Text))
    (passing_score : ℕ)
    → ((c t : ℕ) → c ≤ t → percent c t ≤ 100)
    → let r = grade_quiz percent questions submission passing_score in
      (r.correct ≤ r.total) × (r.score ≤ 100)
unfolding grade_quiz score_of
grade_quiz_bounds percent questions submission passing_score h = ground (
  arith,
  mark_bounds submission questions 0 [],
  h (mark submission questions 0 []).0 (length questions),
)
