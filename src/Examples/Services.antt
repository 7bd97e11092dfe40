-- ===== src/Examples/Services.antt =====
-- The properties of the teamly services at small databases.
use nastroyka_claude.Domain.Errors.{Error, Result, ok, err, thrown}
use nastroyka_claude.Teamly.Enrollment.{
  Prisma, EnrollmentRow, QuizRow, gradable, complete_lesson, submit_quiz,
}
use nastroyka_claude.Teamly.Enrollment.Synced.{
  HasSame, IsDatabase, IsSynced, with_lesson, with_attempt, complete_lesson-IsSynced,
  submit_quiz-IsSynced,
}
use nastroyka_claude.Base.Sets.{IsDistinct}
use nastroyka_claude.Teamly.Pages
use nastroyka_claude.Base.{
  Map, Option, ◌≡◌, ◌⊎◌, refl, true, false, none, some, List, [], ◌∷◌, mem_text, Text, text, arith,
  ap, eq_text, ◌++◌, Bool, not, ◌&&◌,
}
use nastroyka_claude.Teamly.Pages.{PageData}
use nastroyka_claude.Teamly.Pages.Slugs.{create_page-IsDistinct, Created, has_parent}
use nastroyka_claude.Teamly.Pages.Slugs
use nastroyka_claude.Teamly.Grade.{grade_quiz}
use nastroyka_claude.Examples.Wiki.{ascii, taken_slugs, all_or_nothing}

-- A database of one enrollment and one quiz.
abbrev only_quiz : QuizRow
only_quiz = record {
  passing_score = 60;
  questions =
      record {
        id = text "q1";
        options =
            record { id = text "a"; is_correct = true }
            ∷ record { id = text "b"; is_correct = false }
            ∷ [];
      }
      ∷ [];
}

-- The lesson's foreign key holds or does not.
abbrev upserted : Bool → Text → EnrollmentRow → Result (Unit {0}) × EnrollmentRow
upserted true l s = (ok tt, record s { lesson_progress = with_lesson l s.lesson_progress })
upserted false l s = (err (thrown (text "P2003")), s)

abbrev one_row : Prisma
one_row = record {
  State = EnrollmentRow;
  find_enrollment = λ i s. some s;
  find_by_user = λ c u s. some s;
  find_quiz = λ q s. some only_quiz;
  upsert_enrollment = λ c u s. (ok tt, s);
  upsert_lesson = λ i l s. upserted (eq_text l (text "l2")) l s;
  create_attempt = λ i q score passed s.
      (ok tt, record s { passed_attempts = with_attempt q passed s.passed_attempts });
  set_completed_at = λ i t s. (ok tt, record s { completed_at = t });
}

abbrev is_l2 : Text → EnrollmentRow → Bool
is_l2 l s = eq_text l (text "l2")

row_of : EnrollmentRow → Option EnrollmentRow → EnrollmentRow
row_of s none = s
row_of s (some e) = e

same_row : (s e : EnrollmentRow) → some s ≡ some e → s ≡ e
unfolding row_of
same_row s e h = ap (row_of s) h

one_row-IsDatabase : IsDatabase one_row is_l2
unfolding HasSame
one_row-IsDatabase = record {
  lesson_written = λ i l s e h stored.
      let e_is = same_row s e h in
      (
        record s { lesson_progress = with_lesson l s.lesson_progress },
        (
          with_lesson l s.lesson_progress,
          (
            ap (λ b. upserted b l s) stored,
            (
              (λ z. ap (λ (x : EnrollmentRow). mem_text z (with_lesson l x.lesson_progress)) e_is),
              ap
                  (λ (x : EnrollmentRow).
                    some (record x { lesson_progress = with_lesson l s.lesson_progress }))
                  e_is,
            ),
          ),
        ),
      );
  lesson_refused = λ i l s missing. (thrown (text "P2003"), ap (λ b. upserted b l s) missing);
  attempt_written = λ i q score passed s e quiz h stored.
      let e_is = same_row s e h in
      (
        record s { passed_attempts = with_attempt q passed s.passed_attempts },
        (
          with_attempt q passed s.passed_attempts,
          (
            refl,
            (
              (λ z.
                  ap (λ (x : EnrollmentRow). mem_text z (with_attempt q passed x.passed_attempts))
                    e_is),
              ap
                  (λ (x : EnrollmentRow).
                    some (record x { passed_attempts = with_attempt q passed s.passed_attempts }))
                  e_is,
            ),
          ),
        ),
      );
  date_written = λ i t s e h. (
    record s { completed_at = t },
    (refl, ap (λ (x : EnrollmentRow). some (record x { completed_at = t })) (same_row s e h)),
  );
}

abbrev started : EnrollmentRow
started = record {
  id = text "e1";
  modules = record { lessons = text "l1" ∷ text "l2" ∷ []; quiz = some (text "z") } ∷ [];
  lesson_progress = text "l1" ∷ [];
  passed_attempts = [];
  completed_at = none;
}

complete_lesson-IsSynced_example :
    let out = complete_lesson all_or_nothing one_row 5 (text "e1") (text "l2") started in
    ((is_l2 (text "l2") started ≡ true)
      × ((out.0 ≡ ok tt)
          × ((ls : List Text) × (HasSame ls (with_lesson (text "l2") started.lesson_progress)
                × IsSynced all_or_nothing one_row 5
                    (text "e1")
                    (record started { lesson_progress = ls })
                    out.1))))
    ⊎ ((is_l2 (text "l2") started ≡ false) × ((x : Error) × (out ≡ (err x, started))))
complete_lesson-IsSynced_example =
    complete_lesson-IsSynced all_or_nothing one_row is_l2 one_row-IsDatabase 5 (text "e1")
      (text "l2") started started refl

abbrev answers : Map (List Text)
answers = (text "q1", text "a" ∷ []) ∷ []

submit_quiz-IsSynced_example :
    let result = grade_quiz all_or_nothing (gradable only_quiz) answers only_quiz.passing_score in
    let out = submit_quiz all_or_nothing one_row 5 (text "e1") (text "z") answers started in
    (out.0 ≡ ok result)
    × ((qs : List Text) × (HasSame qs
            (with_attempt (text "z") result.passed started.passed_attempts)
          × IsSynced all_or_nothing one_row 5
              (text "e1")
              (record started { passed_attempts = qs })
              out.1))
submit_quiz-IsSynced_example =
    submit_quiz-IsSynced all_or_nothing one_row is_l2 one_row-IsDatabase 5 (text "e1") (text "z")
      answers only_quiz started started refl refl

-- A database that keeps the slugs of one space and of one workspace, and has no page: an insert with a
-- parent, or of a slug that is taken, throws.
abbrev SlugLists : Type 0
SlugLists = List Text × List Text

abbrev refused_write : Error
refused_write = thrown (text "P2002 or P2003")

abbrev page_added : Bool → PageData → SlugLists → Result (Unit {0}) × SlugLists
page_added true d s = (ok tt, (s.0 ++ d.slug ∷ [], s.1))
page_added false d s = (err refused_write, s)

abbrev space_added : Bool → Text → SlugLists → Result (Unit {0}) × SlugLists
space_added true slug s = (ok tt, (s.0, s.1 ++ slug ∷ []))
space_added false slug s = (err refused_write, s)

abbrev stored_space : Text → SlugLists → Bool
stored_space i s = true

abbrev stored_page : Text → SlugLists → Bool
stored_page i s = false

abbrev slug_lists : Pages.Prisma
slug_lists = record {
  State = SlugLists;
  slugs_of_space = λ i s. s.0;
  slugs_of_workspace = λ i s. s.1;
  count_siblings = λ i p s. 0;
  insert_page =
      λ d s. page_added (has_parent stored_page d.parent_id s && not (mem_text d.slug s.0)) d s;
  insert_space = λ w name slug s. space_added (not (mem_text slug s.1)) slug s;
  insert_comment = λ d s. (ok tt, s);
  last_version = λ i s. none;
  save = λ v t s. (ok tt, s);
  index_page = λ i s. (ok tt, s);
  set_place = λ i p n s. (ok tt, s);
  set_archived = λ i s. (ok tt, s);
}

fits : PageData → SlugLists → Bool
fits d s = has_parent stored_page d.parent_id s && not (mem_text d.slug s.0)

page_is :
    (d : PageData) (s : SlugLists) (b : Bool)
    → fits d s ≡ b
    → slug_lists.insert_page d s ≡ page_added b d s
unfolding fits
page_is d s b h = ap (λ x. page_added x d s) h

space_is :
    (slug : Text) (s : SlugLists) (b : Bool)
    → not (mem_text slug s.1) ≡ b
    → slug_lists.insert_space [] [] slug s ≡ space_added b slug s
space_is slug s b h = ap (λ x. space_added x slug s) h

slug_lists-IsDatabase : Slugs.IsDatabase slug_lists stored_space stored_page stored_space
unfolding fits
slug_lists-IsDatabase = record {
  page_written = λ d s h p free.
      ((s.0 ++ d.slug ∷ [], s.1), (page_is d s true (ground (arith, p, free)), λ x. refl));
  page_refused = λ d s h. (refused_write, page_is d s false (ground (arith, h)));
  space_written = λ w name slug s h free.
      ((s.0, s.1 ++ slug ∷ []), (space_is slug s true (ground (arith, free)), λ x. refl));
  space_refused = λ w name slug s h. (refused_write, space_is slug s false (ground (arith, h)));
}

IsDistinct-taken : IsDistinct taken_slugs
unfolding mem_text eq_text
IsDistinct-taken = (refl, (refl, tt))

create_page-IsDistinct_example :
    Created {S = SlugLists}
      (λ t. t.0)
      (stored_space (text "s1") (taken_slugs, []) && has_parent stored_page none (taken_slugs, []))
      (Pages.create_page ascii slug_lists (text "s1") none (text "my page") (taken_slugs, []))
      (taken_slugs, [])
    × Created {S = SlugLists}
        (λ t. t.1)
        (stored_space (text "w1") (taken_slugs, []))
        (Pages.create_space ascii slug_lists (text "w1") (text "my page") (taken_slugs, []))
        (taken_slugs, [])
create_page-IsDistinct_example =
    create_page-IsDistinct ascii slug_lists stored_space stored_page stored_space
      slug_lists-IsDatabase (text "s1") (text "w1") none (text "my page") (taken_slugs, [])
      IsDistinct-taken tt
