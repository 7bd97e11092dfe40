-- ===== src/Teamly/Progress.antt =====
-- teamly/src/lib/lms/progress.ts. The percentage is a parameter, as for the grades.
use mathlib.Core.Path.{fun_ext}
use nastroyka_claude.Base.{
  ℕ, ◌+◌, ◌≤◌, ◌<◌, ◌≡◌, ◌↔◌, refl, Bool, true, false, ◌&&◌, Option, none, some, List, [], ◌∷◌,
  Text, All, mem_text, arith, if◌then◌else◌, ltb, ◌==◌,
}
use nastroyka_claude.Base.Sets.{unique_from, mem_unique}

-- `quizId` is null where there is none.
pub record CourseModule : Type 0 where
  pub lesson_ids : List Text
  pub quiz_id : Option Text

pub record CourseProgress : Type 0 where
  pub total_units : ℕ
  pub done_units : ℕ
  pub percent : ℕ
  pub completed : Bool

-- The counts of the units so far, and of those that are done.
pub record Counts : Type 0 where
  pub total : ℕ
  pub done : ℕ

unfoldable pub count_unit : Bool → Counts → Counts
count_unit ready c =
    if ready
    then record { total = c.total + 1; done = c.done + 1 }
    else record { total = c.total + 1; done = c.done }

unfoldable pub count_lessons : List Text → List Text → Counts → Counts
count_lessons done_lessons [] c = c
count_lessons done_lessons (l ∷ ls) c =
    count_lessons done_lessons ls (count_unit (mem_text l done_lessons) c)

-- An empty quiz id counts as none.
unfoldable pub count_quiz : List Text → Option Text → Counts → Counts
count_quiz passed none c = c
count_quiz passed (some []) c = c
count_quiz passed (some (x ∷ q)) c = count_unit (mem_text (x ∷ q) passed) c

unfoldable pub count_units : (done_lessons passed : List Text) → List CourseModule → Counts → Counts
count_units done_lessons passed [] c = c
count_units done_lessons passed (m ∷ ms) c =
    count_units done_lessons passed ms
      (count_quiz passed m.quiz_id (count_lessons done_lessons m.lesson_ids c))

abbrev progress_of : (ℕ → ℕ → ℕ) → Counts → CourseProgress
progress_of percent c = record {
  total_units = c.total;
  done_units = c.done;
  percent = if c.total == 0 then 0 else percent c.done c.total;
  completed = ltb 0 c.total && c.done == c.total;
}

unfoldable pub course_progress :
    (percent : ℕ → ℕ → ℕ)
    → List CourseModule
    → (completed_lesson_ids passed_quiz_ids : List Text) → CourseProgress
unfolding unique_from
course_progress percent modules completed_lesson_ids passed_quiz_ids = progress_of percent (
    count_units (unique_from [] completed_lesson_ids) (unique_from [] passed_quiz_ids) modules
      (record { total = 0; done = 0 }))

-- The lessons of a module are completed and its quiz, where it has one, is passed.
abbrev pub QuizPassed : (Text → Bool) → Option Text → Type 0
QuizPassed passed none = Unit
QuizPassed passed (some []) = Unit
QuizPassed passed (some (x ∷ q)) = passed (x ∷ q) ≡ true

abbrev pub IsDone : (lesson_done quiz_passed : Text → Bool) → CourseModule → Type 0
IsDone lesson_done quiz_passed m =
    All (λ l. lesson_done l ≡ true) m.lesson_ids × QuizPassed quiz_passed m.quiz_id

abbrev pub is_in : List Text → Text → Bool
is_in xs x = mem_text x xs

-- Counting keeps done at most total; done meets total after exactly when it did before and
-- everything counted was done.
abbrev Counted : Type 0 → Counts → Counts → Type 0
Counted P c c' =
    (c.total ≤ c'.total)
    × (c'.done + c.total ≤ c.done + c'.total)
    × ((c'.done + c.total ≡ c.done + c'.total) ↔ P)

Counted-trans :
    {P Q : Type 0} (a b c : Counts) → Counted P a b → Counted Q b c → Counted (P × Q) a c
Counted-trans a b c (t, d, h) (t', d', h') = (
  omega arith,
  omega arith,
  (
    λ e. (h.0 (omega arith), h'.0 (omega arith)),
    λ pq. let e = h.1 pq.0 in let e' = h'.1 pq.1 in omega (arith, e, e'),
  ),
)

Counted-refl : (c : Counts) → Counted (Unit {0}) c c
Counted-refl c = (omega arith, omega arith, (λ _. tt, λ _. refl))

count_unit-Counted : (b : Bool) (c : Counts) → Counted (b ≡ true) c (count_unit b c)
unfolding count_unit
count_unit-Counted true c = (omega arith, omega arith, (λ _. refl, λ _. omega arith))
count_unit-Counted false c = (omega arith, omega arith, (λ e. absurd (omega arith), λ e. cc))

count_lessons-Counted :
    (lessons ls : List Text) (c : Counts)
    → Counted (All (λ l. mem_text l lessons ≡ true) ls) c (count_lessons lessons ls c)
unfolding count_lessons
count_lessons-Counted lessons [] c = Counted-refl c
count_lessons-Counted lessons (l ∷ ls) c =
    Counted-trans c (count_unit (mem_text l lessons) c) _
      (count_unit-Counted (mem_text l lessons) c)
      (count_lessons-Counted lessons ls (count_unit (mem_text l lessons) c))

count_quiz-Counted :
    (passed : List Text) (quiz : Option Text) (c : Counts)
    → Counted (QuizPassed (is_in passed) quiz) c (count_quiz passed quiz c)
unfolding count_quiz
count_quiz-Counted passed none c = Counted-refl c
count_quiz-Counted passed (some []) c = Counted-refl c
count_quiz-Counted passed (some (x ∷ q)) c = count_unit-Counted (mem_text (x ∷ q) passed) c

count_units-Counted :
    (lessons passed : List Text) (ms : List CourseModule) (c : Counts)
    → Counted (All (IsDone (is_in lessons) (is_in passed)) ms) c (count_units lessons passed ms c)
unfolding count_units
count_units-Counted lessons passed [] c = Counted-refl c
count_units-Counted lessons passed (m ∷ ms) c =
    let after_lessons = count_lessons lessons m.lesson_ids c in
    let after_quiz = count_quiz passed m.quiz_id after_lessons in
    Counted-trans c after_quiz _
      (Counted-trans c after_lessons after_quiz (count_lessons-Counted lessons m.lesson_ids c)
        (count_quiz-Counted passed m.quiz_id after_lessons))
      (count_units-Counted lessons passed ms after_quiz)

is_in-set : (xs : List Text) → is_in (unique_from [] xs) ≡ is_in xs
unfolding mem_text
is_in-set xs = fun_ext λ x. ground (arith, mem_unique x [] xs)

course_counts :
    (ms : List CourseModule) (lessons passed : List Text)
    → Counted
        (All (IsDone (is_in lessons) (is_in passed)) ms)
        (record { total = 0; done = 0 })
        (count_units
          (unique_from [] lessons)
          (unique_from [] passed)
          ms
          (record { total = 0; done = 0 }))
course_counts ms lessons passed = rw (← is_in-set lessons) (
    rw (← is_in-set passed) (
      count_units-Counted (unique_from [] lessons) (unique_from [] passed) ms
        (record { total = 0; done = 0 })))

completed_iff :
    (P : Type 0) (c : Counts)
    → Counted P (record { total = 0; done = 0 }) c
    → ((ltb 0 c.total && c.done == c.total) ≡ true) ↔ ((0 < c.total) × P)
completed_iff P c h =
    (λ e. (ground arith, h.2.0 (ground arith)), λ e. let same = h.2.1 e.1 in ground (arith, same))

-- A course is completed exactly when it has a unit and, in every module, all lessons are completed
-- and the quiz, where there is one, is passed; never are more units done than there are.
pub course_progress-completed :
    (percent : ℕ → ℕ → ℕ) (ms : List CourseModule) (lessons passed : List Text)
    → let r = course_progress percent ms lessons passed in
      (r.done_units ≤ r.total_units)
      × ((r.completed ≡ true)
          ↔ ((0 < r.total_units) × All (IsDone (is_in lessons) (is_in passed)) ms))
unfolding course_progress
course_progress-completed percent ms lessons passed =
    let c = course_counts ms lessons passed in (omega arith, completed_iff _ _ c)
