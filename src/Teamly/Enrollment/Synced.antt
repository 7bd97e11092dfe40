-- ===== src/Teamly/Enrollment/Synced.antt =====
-- teamly/src/lib/services/enrollment.ts: `completeLesson`, `submitQuiz` and `recomputeCompletion`, on a
-- database with the foreign keys of teamly/prisma/schema.prisma.
use nastroyka_claude.Base.{
  ◌⊎◌, inl, inr, Bool-cases, ℕ, ◌≡◌, refl, Bool, true, false, Option, none, some, List, [], ◌∷◌,
  ◌++◌, mem_text, Text, Map, if◌then◌else◌, arith,
}
use nastroyka_claude.Domain.Errors.{Error, Result, ok, err}
use nastroyka_claude.Exec.{pure, gets, continue, ◌>>=◌}
use nastroyka_claude.Teamly.Grade.{grade_quiz}
use nastroyka_claude.Teamly.Enrollment.{
  Prisma, EnrollmentRow, QuizRow, gradable, stamp, progress_of_row, load_progress_inputs,
  recompute_completion, complete_lesson, submit_quiz, found_or_throw, update_if, quiz_or_throw,
}

abbrev pub with_lesson : Text → List Text → List Text
with_lesson l ls = if mem_text l ls then ls else ls ++ l ∷ []

abbrev pub with_attempt : Text → Bool → List Text → List Text
with_attempt q passed qs = if passed then qs ++ q ∷ [] else qs

-- The same texts, in whatever order.
unfoldable pub HasSame : List Text → List Text → Type 0
HasSame xs ys = (z : Text) → mem_text z xs ≡ mem_text z ys

-- What the writes do to the enrollment that is read back, and the foreign keys of LessonProgress and
-- QuizAttempt: `has_lesson` is whether a lesson is stored. An upsert for a stored lesson adds it unless it
-- is there, and for another lesson it throws and writes nothing; an attempt at a stored quiz is created, and
-- counts when it is passed; an update sets the date. An insert leaves open in what order the lessons or the
-- attempts are read back. Writes that fail because the database is unreachable
-- are left out.
pub record IsDatabase (db : Prisma) (has_lesson : Text → db.State → Bool) : Type 0 where
  pub lesson_written :
      (i l : Text) (s : db.State) (e : EnrollmentRow)
      → db.find_enrollment i s ≡ some e
      → has_lesson l s ≡ true
      → (t : db.State) × ((ls : List Text) × ((db.upsert_lesson i l s ≡ (ok tt, t))
            × (HasSame ls (with_lesson l e.lesson_progress)
                × (db.find_enrollment i t ≡ some (record e { lesson_progress = ls })))))
  pub lesson_refused :
      (i l : Text) (s : db.State)
      → has_lesson l s ≡ false
      → (x : Error) × (db.upsert_lesson i l s ≡ (err x, s))
  pub attempt_written :
      (i q : Text) (score : ℕ) (passed : Bool) (s : db.State) (e : EnrollmentRow) (quiz : QuizRow)
      → db.find_enrollment i s ≡ some e
      → db.find_quiz q s ≡ some quiz
      → (t : db.State) × ((qs : List Text) × ((db.create_attempt i q score passed s ≡ (ok tt, t))
            × (HasSame qs (with_attempt q passed e.passed_attempts)
                × (db.find_enrollment i t ≡ some (record e { passed_attempts = qs })))))
  pub date_written :
      (i : Text) (d : Option ℕ) (s : db.State) (e : EnrollmentRow)
      → db.find_enrollment i s ≡ some e
      → (t : db.State) × ((db.set_completed_at i d s ≡ (ok tt, t))
          × (db.find_enrollment i t ≡ some (record e { completed_at = d })))

-- The date of completion after a change: kept while the course stays completed, and none when it is not.
abbrev pub date_after : (completed : Bool) → Option ℕ → ℕ → Option ℕ
date_after false old now = none
date_after true none now = some now
date_after true (some t) now = some t

module _ (percent : ℕ → ℕ → ℕ) (db : Prisma) where
  -- The enrollment is the given one, with the date that belongs to its progress.
  abbrev pub IsSynced : ℕ → Text → EnrollmentRow → db.State → Type 0
  IsSynced now i e s =
      db.find_enrollment i s
      ≡ some (record e {
        completed_at = date_after (progress_of_row percent e).completed e.completed_at now;
      })

module _ (percent : ℕ → ℕ → ℕ) (db : Prisma) (has_lesson : Text → db.State → Bool)
    (laws : IsDatabase db has_lesson) where
  dated :
      (i : Text) (e : EnrollmentRow) (s : db.State) (d old : Option ℕ)
      → db.find_enrollment i s ≡ some (record e { completed_at = old })
      → let out = db.set_completed_at i d s in
        (out.0 ≡ ok tt) × (db.find_enrollment i out.1 ≡ some (record e { completed_at = d }))
  dated i e s d old found =
      let (t, (written, after)) = laws.date_written i d s (record e { completed_at = old }) found in
      rw written (refl, after)

  stamped :
      (now : ℕ) (i : Text) (e : EnrollmentRow) (s : db.State) (completed : Bool) (old : Option ℕ)
      → db.find_enrollment i s ≡ some (record e { completed_at = old })
      → let out = update_if percent db i (stamp completed old now) s in
        (out.0 ≡ ok tt)
        × (db.find_enrollment i out.1
            ≡ some (record e { completed_at = date_after completed old now }))
  unfolding update_if pure
  stamped now i e s true none found = dated i e s (some now) none found
  stamped now i e s true (some t) found = (refl, found)
  stamped now i e s false none found = (refl, found)
  stamped now i e s false (some t) found = dated i e s none (some t) found

  recomputed :
      (now : ℕ) (i : Text) (e : EnrollmentRow) (s : db.State)
      → db.find_enrollment i s ≡ some e
      → ((recompute_completion percent db now i s).0 ≡ ok tt)
        × IsSynced percent db now i e (recompute_completion percent db now i s).1
  unfolding recompute_completion load_progress_inputs ◌>>=◌ found_or_throw pure
  recomputed now i e s found =
      rw found (stamped now i e s (progress_of_row percent e).completed e.completed_at found)

  -- Completing a lesson of a stored enrollment: when the lesson is stored it returns, and the enrollment read
  -- back has the lesson, added unless it was there, and is otherwise the same but for the order of its lessons
  -- and for its completion date, which is set when its course is completed, the old date if there was one, and
  -- absent when it is not; when the lesson is not stored it throws, and nothing is written.
  pub complete_lesson-IsSynced :
      (now : ℕ) (i l : Text) (e : EnrollmentRow) (s : db.State)
      → db.find_enrollment i s ≡ some e
      → let out = complete_lesson percent db now i l s in
        ((has_lesson l s ≡ true)
          × ((out.0 ≡ ok tt)
              × ((ls : List Text) × (HasSame ls (with_lesson l e.lesson_progress)
                    × IsSynced percent db now i (record e { lesson_progress = ls }) out.1))))
        ⊎ ((has_lesson l s ≡ false) × ((x : Error) × (out ≡ (err x, s))))
  unfolding complete_lesson ◌>>=◌
  complete_lesson-IsSynced now i l e s found = elim (Bool-cases (has_lesson l s)) [
    | inl stored ↦
        (let (t, (ls, (written, (same, after)))) = laws.lesson_written i l s e found stored in
          let (returns, synced) = recomputed now i (record e { lesson_progress = ls }) t after in
          inl (stored, rw written (returns, (ls, (same, synced)))))
    | inr missing ↦
        (let (x, refused) = laws.lesson_refused i l s missing in
          inr (missing, (x, rw refused refl)))
  ]

  returning :
      {A : Type 0} (r : A) (P : db.State → Type 0) (out : Result (Unit {0}) × db.State)
      → (out.0 ≡ ok tt) × P out.1
      → let whole = continue out (λ _. pure r) in (whole.0 ≡ ok r) × P whole.1
  unfolding pure
  returning r P (ok u, t) h = (refl, h.1)
  returning r P (err x, t) h = ground (arith, h.0)

  -- Submitting a stored quiz for a stored enrollment returns its grade; the enrollment read back counts the
  -- attempt when it is passed, and has a completion date exactly as its course is completed.
  pub submit_quiz-IsSynced :
      (now : ℕ) (i q : Text) (submission : Map (List Text)) (quiz : QuizRow) (e : EnrollmentRow)
      (s : db.State)
      → db.find_quiz q s ≡ some quiz
      → db.find_enrollment i s ≡ some e
      → let result = grade_quiz percent (gradable quiz) submission quiz.passing_score in
        let out = submit_quiz percent db now i q submission s in
        (out.0 ≡ ok result)
        × ((qs : List Text) × (HasSame qs (with_attempt q result.passed e.passed_attempts)
              × IsSynced percent db now i (record e { passed_attempts = qs }) out.1))
  unfolding submit_quiz ◌>>=◌ gets quiz_or_throw pure
  submit_quiz-IsSynced now i q submission quiz e s stored found =
      let result = grade_quiz percent (gradable quiz) submission quiz.passing_score in
      let (t, (qs, (written, (same, after)))) =
        laws.attempt_written i q result.score result.passed s e quiz found stored in
      let e1 = record e { passed_attempts = qs } in
      let (returns, synced) =
        returning result (IsSynced percent db now i e1) (recompute_completion percent db now i t)
          (recomputed now i e1 t after) in
      rw stored (rw written (returns, (qs, (same, synced))))
