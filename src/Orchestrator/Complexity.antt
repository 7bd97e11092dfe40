-- ===== src/Orchestrator/Complexity.antt =====
-- agent-os/src/orchestrator/complexity.ts: the score that decides between one agent and a team. Each
-- regular expression is the scan that it describes.
use nastroyka_claude.Base.{
  ℕ, zero, suc, ◌+◌, ◌*◌, ◌/◌, Bool, true, false, not, ◌&&◌, ◌||◌, Option, none, some, List, [],
  ◌∷◌, ◌++◌, map, length, leb, ◌==◌, Text, text, mem_text, is_space, is_blank, lower, eq_text, trim,
  trim_start, trim_end, ◌≡◌, refl, eq_text, if◌then◌else◌,
}

-- DEFAULT_COMPLEXITY_THRESHOLD
abbrev pub default_threshold : ℕ
default_threshold = 5

-- The pieces between the units that `sep` picks, those without a unit left out.
pieces : (ℕ → Bool) → Text → Text → List Text
pieces sep current [] = if is_blank_piece current then [] else current ∷ []
  where
    is_blank_piece : Text → Bool
    is_blank_piece [] = true
    is_blank_piece (c ∷ t) = false
pieces sep [] (c ∷ t) = pieces sep (if sep c then [] else c ∷ []) t
pieces sep (d ∷ current) (c ∷ t) =
    let cut = (d ∷ current) ∷ pieces sep [] t in
    let grown = pieces sep ((d ∷ current) ++ c ∷ []) t in if sep c then cut else grown

abbrev is_word_unit : ℕ → Bool
is_word_unit c =
    (leb 48 c && leb c 57) || (leb 65 c && leb c 90) || c == 95 || (leb 97 c && leb c 122)

abbrev conjunctions : List Text
conjunctions =
    text "and"
    ∷ text "then"
    ∷ text "after"
    ∷ text "also"
    ∷ text "plus"
    ∷ text "next"
    ∷ text "finally"
    ∷ []

-- \b(and|then|…)\b with the case ignored: a maximal run of word units that is one of the words.
count_conjunctions : List Text → ℕ
count_conjunctions [] = 0
count_conjunctions (w ∷ ws) =
    if mem_text (map lower w) conjunctions
    then suc (count_conjunctions ws)
    else count_conjunctions ws

abbrev is_sentence_end : ℕ → Bool
is_sentence_end c = c == 46 || c == 33 || c == 63 || c == 10

count_sentences : List Text → ℕ
count_sentences [] = 0
count_sentences (s ∷ ss) = if is_blank s then count_sentences ss else suc (count_sentences ss)

skip_spaces : Text → Text
skip_spaces [] = []
skip_spaces (c ∷ t) = let rest = skip_spaces t in if is_space c then rest else c ∷ t

-- \s+
spaces_after : Text → Option Text
unfolding skip_spaces
spaces_after [] = none
spaces_after (c ∷ t) = if is_space c then some (skip_spaces t) else none

-- \d*[.)] behind a first digit
number_mark : Text → Option Text
number_mark [] = none
number_mark (c ∷ t) =
    let more = number_mark t in
    if leb 48 c && leb c 57 then more else if c == 46 || c == 41 then some t else none

-- [-*•]|\d+[.)]
bullet_mark : Text → Option Text
unfolding number_mark
bullet_mark [] = none
bullet_mark (c ∷ t) =
    if c == 45 || c == 42 || c == 0x2022
    then some t
    else if leb 48 c && leb c 57
    then number_mark t
    else none

-- \s*([-*•]|\d+[.)])\s+ at the head of a text, and what follows the match.
bullet_here : Text → Option Text
unfolding bullet_mark spaces_after
bullet_here t = elim (bullet_mark (skip_spaces t)) [ none ↦ none | some rest ↦ spaces_after rest ]

-- The matches of (^|\n)\s*([-*•]|\d+[.)])\s+ that do not overlap; a match is never empty.
count_bullets_from : ℕ → Text → ℕ
count_bullets_from zero t = 0
count_bullets_from (suc fuel) [] = 0
count_bullets_from (suc fuel) (c ∷ t) =
    let past = count_bullets_from fuel t in
    let at_break : ℕ = elim (bullet_here t) [
      | none ↦ past
      | some rest ↦ suc (count_bullets_from fuel rest)
    ] in
    if c == 10 then at_break else past

count_bullets : Text → ℕ
unfolding count_bullets_from bullet_here
count_bullets t = elim (bullet_here t) [
  | none ↦ count_bullets_from (length t) t
  | some rest ↦ suc (count_bullets_from (length t) rest)
]

-- Math.round(words / 20) is the integer part of (words + 10) / 20.
score : Text → ℕ
unfolding pieces count_conjunctions count_sentences count_bullets
score [] = 0
score t =
    (length (pieces is_space [] t) + 10) / 20
    + count_conjunctions (pieces (λ c. not (is_word_unit c)) [] t) * 2
    + count_sentences (pieces is_sentence_end [] t)
    + count_bullets t * 2

unfoldable pub estimate_complexity : Text → ℕ
unfolding score
estimate_complexity task = score (trim task)

unfoldable pub should_orchestrate : Text → ℕ → Bool
unfolding estimate_complexity
should_orchestrate task threshold = leb threshold (estimate_complexity task)

-- The scores of the scans on small texts.
sample_scores :
    (estimate_complexity (text "") ≡ 0)
    × (estimate_complexity (text "Say hi") ≡ 1)
    × (estimate_complexity (text "Research it, then write it and review it. Done!") ≡ 6)
    × (estimate_complexity (text "Do:\n- one\n- two\n2) three") ≡ 10)
unfolding estimate_complexity eq_text trim trim_start trim_end is_space is_blank lower mem_text
sample_scores = (refl, refl, refl, refl)
