-- ===== src/Examples/Wiki.antt =====
-- The properties of the teamly library at small inputs.
use nastroyka_claude.Base.{
  ℕ, ◌≤◌, ◌<◌, ◌≡◌, ◌↔◌, ◌⊎◌, refl, true, false, none, some, List, [], ◌∷◌, All, length, leb, ltb,
  mem_text, Text, text, arith, if◌then◌else◌,
}
use nastroyka_claude.Teamly.Rbac.{authorize, editor, page_write, needed, rank, authorize_lem}
use nastroyka_claude.Teamly.Slug.{Unicode, slugify, unique_slug}
use nastroyka_claude.Teamly.Slug.Shape.{is_slug, slugify-is_slug}
use nastroyka_claude.Teamly.Slug.Unique.{unique_slug_free}
use nastroyka_claude.Teamly.Grade.{
  GradableQuestion, is_correct, grade_quiz, is_correct_iff, grade_quiz_bounds,
}
use nastroyka_claude.Teamly.Progress.{
  CourseModule, course_progress, IsDone, is_in, course_progress-completed,
}
use nastroyka_claude.Teamly.Chunk.{ChunkOptions, spans, chunk_text}
use nastroyka_claude.Teamly.Chunk.Cover.{Covers, IsPiece, chunk_spans_cover, chunk_text-IsPiece}

authorize_lem_example : authorize editor page_write ≡ (
    if leb (needed page_write) (rank editor)
    then none
    else some (record { role = editor; action = page_write }))
authorize_lem_example = authorize_lem editor page_write

-- Letters are the Latin small ones, and nothing changes case.
abbrev pub ascii : Unicode
ascii = record { lower_nfkc = λ t. t; is_word = λ c. leb 97 c }

slugify-is_slug_example : is_slug ascii.is_word true (slugify ascii (text "my page")) ≡ true
slugify-is_slug_example = slugify-is_slug ascii (text "my page") refl

abbrev pub taken_slugs : List Text
taken_slugs = text "my-page" ∷ text "my-page-2" ∷ []

unique_slug_free_example :
    (s : Text) × (unique_slug ascii (text "my page") taken_slugs ≡ some s)
    × (mem_text s taken_slugs ≡ false)
    × ((mem_text (slugify ascii (text "my page")) taken_slugs ≡ true)
        ⊎ (s ≡ slugify ascii (text "my page")))
unique_slug_free_example = unique_slug_free ascii (text "my page") taken_slugs

abbrev chosen : List Text
chosen = text "b" ∷ text "a" ∷ text "b" ∷ []

abbrev expected_options : List Text
expected_options = text "a" ∷ text "b" ∷ []

is_correct_iff_example :
    (is_correct chosen expected_options ≡ true)
    ↔ ((z : Text) → mem_text z chosen ≡ mem_text z expected_options)
is_correct_iff_example = is_correct_iff chosen expected_options

-- A percentage that rounds everything short of the whole down to 0.
abbrev pub all_or_nothing : ℕ → ℕ → ℕ
all_or_nothing c t = if ltb c t then 0 else 100

all_or_nothing-le : (c t : ℕ) → c ≤ t → all_or_nothing c t ≤ 100
all_or_nothing-le c t h = ground arith

abbrev one_question : List GradableQuestion
one_question = record { id = text "q"; correct_option_ids = expected_options } ∷ []

grade_quiz_bounds_example :
    let r = grade_quiz all_or_nothing one_question ((text "q", chosen) ∷ []) 60 in
    (r.correct ≤ r.total) × (r.score ≤ 100)
grade_quiz_bounds_example =
    grade_quiz_bounds all_or_nothing one_question ((text "q", chosen) ∷ []) 60 all_or_nothing-le

abbrev one_module : List CourseModule
one_module = record { lesson_ids = text "l1" ∷ text "l2" ∷ []; quiz_id = some (text "q") } ∷ []

course_progress-completed_example :
    let r = course_progress all_or_nothing one_module (text "l1" ∷ []) (text "q" ∷ []) in
    (r.done_units ≤ r.total_units)
    × ((r.completed ≡ true) ↔ (
        (0 < r.total_units)
        × All (IsDone (is_in (text "l1" ∷ [])) (is_in (text "q" ∷ []))) one_module))
course_progress-completed_example =
    course_progress-completed all_or_nothing one_module (text "l1" ∷ []) (text "q" ∷ [])

abbrev tiny : ChunkOptions
tiny = record { max_chars = 4; overlap = 1 }

chunk_spans_cover_example :
    Covers 6 (spans (length (text "one two three")) tiny (text "one two three") 0)
chunk_spans_cover_example =
    chunk_spans_cover tiny (text "one two three") 6 (omega arith) (omega arith)

chunk_text-IsPiece_example : All (IsPiece tiny) (chunk_text (text "one two three") tiny)
chunk_text-IsPiece_example = chunk_text-IsPiece (text "one two three") tiny
