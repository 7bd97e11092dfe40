-- ===== src/Teamly/Enrollment.antt =====
-- teamly/src/lib/services/enrollment.ts: enrolling in a course, completing lessons and quizzes. The
-- database behind Prisma is a parameter: its states, and the queries of the file on them. A write may
-- throw.
pub mod Synced
use nastroyka_claude.Base.{
  ℕ, ◌≡◌, Bool, true, false, Option, none, some, List, [], ◌∷◌, ◌++◌, map, keep, mem_text, Text,
  text, Map, if◌then◌else◌,
}
use nastroyka_claude.Domain.Errors.{Result, ok, err, thrown}
use nastroyka_claude.Exec.{Exec, pure, throw, gets, modify, ◌>>=◌, ◌>>◌}
use nastroyka_claude.Teamly.Grade.{GradableQuestion, QuizResult, grade_quiz}
use nastroyka_claude.Teamly.Progress.{CourseModule, CourseProgress, course_progress}

pub record OptionRow : Type 0 where
  pub id : Text
  pub is_correct : Bool

pub record QuestionRow : Type 0 where
  pub id : Text
  pub options : List OptionRow

pub record QuizRow : Type 0 where
  pub passing_score : ℕ
  pub questions : List QuestionRow

pub record ModuleRow : Type 0 where
  pub lessons : List Text
  pub quiz : Option Text

-- An enrollment with what its queries include: the modules of its course, the completed lessons, and
-- the quizzes of its passed attempts.
pub record EnrollmentRow : Type 0 where
  pub id : Text
  pub modules : List ModuleRow
  pub lesson_progress : List Text
  pub passed_attempts : List Text
  pub completed_at : Option ℕ

pub record Prisma : Type 1 where
  pub State : Type 0
  pub find_enrollment : (enrollment_id : Text) → State → Option EnrollmentRow
  pub find_by_user : (course_id user_id : Text) → State → Option EnrollmentRow
  pub find_quiz : (quiz_id : Text) → State → Option QuizRow
  pub upsert_enrollment : (course_id user_id : Text) → Exec State (Unit {0})
  pub upsert_lesson : (enrollment_id lesson_id : Text) → Exec State (Unit {0})
  pub create_attempt : (enrollment_id quiz_id : Text) → ℕ → Bool → Exec State (Unit {0})
  pub set_completed_at : (enrollment_id : Text) → Option ℕ → Exec State (Unit {0})

abbrev pub structure_of : EnrollmentRow → List CourseModule
structure_of e =
    map (λ (m : ModuleRow). record { lesson_ids = m.lessons; quiz_id = m.quiz }) e.modules

-- { completedAt } of an update, where there is one
abbrev pub stamp : (completed : Bool) → Option ℕ → ℕ → Option (Option ℕ)
stamp true none now = some (some now)
stamp false (some t) now = some none
stamp _ _ now = none

pub record EnrollmentDetail : Type 0 where
  pub enrollment_id : Text
  pub completed_lesson_ids : List Text
  pub passed_quiz_ids : List Text
  pub progress : CourseProgress
  pub completed_at : Option ℕ

unfoldable pub gradable : QuizRow → List GradableQuestion
gradable quiz =
    map
      (λ (q : QuestionRow). record {
        id = q.id;
        correct_option_ids =
            map (λ (o : OptionRow). o.id) (keep (λ (o : OptionRow). o.is_correct) q.options);
      })
      quiz.questions

-- `percent c t` is Math.round((c / t) * 100).
module _ (percent : ℕ → ℕ → ℕ) where
  unfoldable pub progress_of_row : EnrollmentRow → CourseProgress
  progress_of_row e = course_progress percent (structure_of e) e.lesson_progress e.passed_attempts

  module _ (db : Prisma) where
    unfoldable pub enroll : (course_id user_id : Text) → Exec db.State (Unit {0})
    enroll course_id user_id = db.upsert_enrollment course_id user_id

    unfoldable pub get_enrollment :
        (course_id user_id : Text) → Exec db.State (Option EnrollmentRow)
    get_enrollment course_id user_id = gets (db.find_by_user course_id user_id)

    found_or_throw : Text → Option EnrollmentRow → Exec db.State EnrollmentRow
    found_or_throw enrollment_id none =
        throw (thrown (text "enrollment not found: " ++ enrollment_id))
    found_or_throw enrollment_id (some e) = pure e

    -- loadProgressInputs
    unfoldable pub load_progress_inputs : Text → Exec db.State EnrollmentRow
    unfolding found_or_throw
    load_progress_inputs enrollment_id s =
        found_or_throw enrollment_id (db.find_enrollment enrollment_id s) s

    update_if : Text → Option (Option ℕ) → Exec db.State (Unit {0})
    update_if enrollment_id none = pure tt
    update_if enrollment_id (some t) = db.set_completed_at enrollment_id t

    -- recomputeCompletion; `new Date()` is an argument.
    unfoldable pub recompute_completion : ℕ → Text → Exec db.State (Unit {0})
    unfolding update_if
    recompute_completion now enrollment_id = do
      e ← load_progress_inputs enrollment_id
      update_if enrollment_id (stamp (progress_of_row e).completed e.completed_at now)

    unfoldable pub complete_lesson : ℕ → (enrollment_id lesson_id : Text) → Exec db.State (Unit {0})
    complete_lesson now enrollment_id lesson_id = do
      db.upsert_lesson enrollment_id lesson_id
      recompute_completion now enrollment_id

    quiz_or_throw : Text → Option QuizRow → Exec db.State QuizRow
    quiz_or_throw quiz_id none = throw (thrown (text "quiz not found: " ++ quiz_id))
    quiz_or_throw quiz_id (some quiz) = pure quiz

    unfoldable pub submit_quiz :
        ℕ → (enrollment_id quiz_id : Text) → Map (List Text) → Exec db.State QuizResult
    unfolding quiz_or_throw
    submit_quiz now enrollment_id quiz_id submission = do
      found ← gets (db.find_quiz quiz_id)
      quiz ← quiz_or_throw quiz_id found
      let result = grade_quiz percent (gradable quiz) submission quiz.passing_score
      db.create_attempt enrollment_id quiz_id result.score result.passed
      recompute_completion now enrollment_id
      pure result

    unfoldable pub get_progress : Text → Exec db.State CourseProgress
    get_progress enrollment_id = do e ← load_progress_inputs enrollment_id; pure (progress_of_row e)

    detail_of : Option EnrollmentRow → Exec db.State (Option EnrollmentDetail)
    detail_of none = pure none
    detail_of (some e) = do
      row ← load_progress_inputs e.id
      pure (
          some (record {
            enrollment_id = e.id;
            completed_lesson_ids = row.lesson_progress;
            passed_quiz_ids = row.passed_attempts;
            progress = progress_of_row row;
            completed_at = e.completed_at;
          }))

    unfoldable pub get_enrollment_detail :
        (course_id user_id : Text) → Exec db.State (Option EnrollmentDetail)
    unfolding detail_of
    get_enrollment_detail course_id user_id = do e ← get_enrollment course_id user_id; detail_of e
