-- ===== src/Control/Phase.antt =====
-- agent-os/src/orchestrator/phase.ts: the phase of an orchestrated run, from its status and its
-- children.
use nastroyka_claude.Base.{
  Bool, false, ◌&&◌, ◌||◌, Option, some, List, [], ◌∷◌, ◌++◌, all, keep, drop, ◌==◌, Text, text,
  starts_with, if◌then◌else◌,
}
use nastroyka_claude.Domain.Json.{Json, str, prop}
use nastroyka_claude.Domain.Types
use nastroyka_claude.Domain.Types.{
  RunStatus, queued, running, paused, succeeded, canceled, Run, eq_status,
}
use nastroyka_claude.Domain.Errors.Human.{is_digit}

pub data TeamPhase : Type 0 where
  new analyzing working reviewing revising completed failed needs_human : TeamPhase

-- /^review\d*$/
unfoldable pub is_review_id : Text → Bool
is_review_id sid = starts_with (text "review") sid && all is_digit (drop 6 sid)

abbrev some_digits : Text → Bool
some_digits [] = false
some_digits (c ∷ s) = all is_digit (c ∷ s)

-- /^rev\d+$/
unfoldable pub is_revision_id : Text → Bool
is_revision_id sid = starts_with (text "rev") sid && some_digits (drop 3 sid)

-- The last part of s.split('::'); the first argument is the part read so far.
last_part : Text → Text → Text
last_part part [] = part
last_part part (c ∷ []) = part ++ c ∷ []
last_part part (c ∷ d ∷ s) =
    let later = last_part [] s in
    let longer = last_part (part ++ c ∷ []) (d ∷ s) in if c == 58 && d == 58 then later else longer

abbrev string_or : Text → Option Json → Text
string_or d (some (str t)) = t
string_or d _ = d

unfoldable pub subtask_id_of : Run → Text
unfolding last_part
subtask_id_of child = string_or (last_part [] child.id) (prop (text "subtaskId") child.input)

-- ACTIVE
abbrev pub is_active : RunStatus → Bool
is_active status = eq_status status queued || eq_status status running

-- The loop over the active children.
round_of : List Run → TeamPhase
round_of [] = working
round_of (c ∷ cs) =
    if is_review_id (subtask_id_of c)
    then reviewing
    else if is_revision_id (subtask_id_of c)
    then revising
    else round_of cs

abbrev running_phase : List Run → TeamPhase
running_phase [] = analyzing
running_phase (c ∷ cs) = round_of (keep (λ (x : Run). is_active x.status) (c ∷ cs))

unfoldable pub derive_team_phase : Run → List Run → TeamPhase
unfolding round_of
derive_team_phase parent children =
    if eq_status parent.status succeeded
    then completed
    else if eq_status parent.status Types.failed || eq_status parent.status canceled
    then failed
    else if eq_status parent.status paused
    then needs_human
    else if eq_status parent.status queued
    then new
    else running_phase children

-- PHASE_LABEL
unfoldable pub phase_label : TeamPhase → Text
phase_label new = text "НОВАЯ"
phase_label analyzing = text "АНАЛИЗ"
phase_label working = text "В РАБОТЕ"
phase_label reviewing = text "РЕВЬЮ"
phase_label revising = text "ДОРАБОТКА"
phase_label completed = text "ГОТОВО"
phase_label failed = text "ОШИБКА"
phase_label needs_human = text "НУЖЕН ЧЕЛОВЕК"
