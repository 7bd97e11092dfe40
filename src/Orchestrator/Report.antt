-- ===== src/Orchestrator/Report.antt =====
-- The texts of agent-os/src/orchestrator/orchestrator.ts: prompts for subtasks, review and revision,
-- the team report, and the reviewer's verdict.
use nastroyka_claude.Base.{
  Bool, not, ◌&&◌, Option, none, some, List, [], ◌∷◌, ◌++◌, map, length, ltb, last?, Text, text,
  includes, lower, trim, join, Map, if◌then◌else◌,
}
use nastroyka_claude.Base.Maps
use nastroyka_claude.Domain.Json.{Json, str, stringify}
use nastroyka_claude.Domain.Types.{
  AgentType, researcher, writer, analyst, coder, orchestrator, reviewer,
}
use nastroyka_claude.Runtime.Prompt.{string_or_json}
use nastroyka_claude.Planner.{OrchestrationSubtask}

-- `output` is absent only for a run that stored none; it then prints as JavaScript's undefined.
pub record TeamContribution : Type 0 where
  pub subtask_id : Text
  pub agent_type : AgentType
  pub agent_name : Text
  pub output : Option Json

abbrev pub Outputs : Type 0
Outputs = Map (Option Json)

abbrev pub shown_output : Option Json → Text
shown_output none = text "undefined"
shown_output (some v) = string_or_json v

abbrev output_at : Option (Option Json) → Option Json
output_at none = none
output_at (some o) = o

unfoldable pub compose_prompt : OrchestrationSubtask → Outputs → Text
compose_prompt subtask outputs = with_context subtask.depends_on
  where
    line : Text → Text
    line id = text "- " ++ (id ++ (text ": " ++ shown_output (output_at (Maps.get id outputs))))

    with_context : List Text → Text
    with_context [] = subtask.prompt
    with_context (d ∷ ds) =
        subtask.prompt
        ++ (text "\n\nContext from prior subtasks:\n" ++ join (text "\n") (map line (d ∷ ds)))

unfoldable pub role_label : AgentType → Text
role_label orchestrator = text "Координатор"
role_label researcher = text "Исследователь"
role_label analyst = text "Аналитик"
role_label writer = text "Райтер"
role_label coder = text "Инженер"
role_label reviewer = text "Ревьюер"

contribution_lines : List TeamContribution → List Text
contribution_lines [] = []
contribution_lines (c ∷ cs) =
    []
    ∷ (text "**" ++ (c.agent_name ++ (text " · " ++ (role_label c.agent_type ++ text "**"))))
    ∷ trim (shown_output c.output)
    ∷ contribution_lines cs

abbrev review_lines : Option TeamContribution → List Text
review_lines none = []
review_lines (some r) =
    []
    ∷ text "---"
    ∷ (text "### Ревью · " ++ (r.agent_name ++ (text " (" ++ (role_label reviewer ++ text ")"))))
    ∷ trim (shown_output r.output)
    ∷ []

report_lines : TeamContribution → List TeamContribution → Option TeamContribution → List Text
unfolding contribution_lines
report_lines synthesis contributions review =
    (text "## Ответ команды" ∷ [] ∷ trim (shown_output synthesis.output) ∷ [])
    ++ ((if ltb 1 (length contributions)
          then [] ∷ text "---" ∷ text "### Вклад участников" ∷ contribution_lines contributions
          else [])
        ++ review_lines review)

-- The last contribution is the synthesis; no contributions give an empty report.
unfoldable pub build_team_report : List TeamContribution → Option TeamContribution → Text
unfolding report_lines
build_team_report contributions review = elim (last? contributions) [
  | none ↦ []
  | some synthesis ↦ join (text "\n") (report_lines synthesis contributions review)
]

abbrev review_text : Option Json → Text
review_text (some (str t)) = t
review_text (some v) = stringify v
review_text none = stringify (str [])

-- Rework only when the rework phrase stands without the ship phrase.
unfoldable pub verdict_needs_rework : Option Json → Bool
verdict_needs_rework output =
    let low = map lower (review_text output) in
    includes (text "нужны доработки") low && not (includes (text "готово к выпуску") low)

unfoldable pub revision_prompt : Text → (synthesis critique : Option Json) → Text
revision_prompt task synthesis critique = join (text "\n") (
    (text "Исходная задача: " ++ task)
    ∷ []
    ∷ text "Твой текущий вариант ответа:"
    ∷ text "\"\"\""
    ∷ shown_output synthesis
    ∷ text "\"\"\""
    ∷ []
    ∷ text "Ревьюер запросил доработки:"
    ∷ text "\"\"\""
    ∷ shown_output critique
    ∷ text "\"\"\""
    ∷ []
    ∷ text "Доработай ответ по замечаниям ревьюера и выдай финальную версию целиком."
    ∷ [])

abbrev review_entry : TeamContribution → Text
review_entry c =
    text "### "
    ++ (c.agent_name
        ++ (text " (" ++ (role_label c.agent_type ++ (text ")\n" ++ shown_output c.output))))

unfoldable pub review_prompt : Text → List TeamContribution → Text
review_prompt task contributions = join (text "\n") (
    (text "Исходная задача: " ++ task)
    ∷ []
    ∷ text "Ниже — работа команды. Кратко и по делу: укажи пробелы, риски и неточности,"
    ∷ text "затем дай вердикт одной строкой: «Готово к выпуску» или «Нужны доработки: …»."
    ∷ []
    ∷ join (text "\n\n") (map review_entry contributions)
    ∷ [])
