-- ===== src/Models/Planners.antt =====
-- The planners: the two classes of agent-os/src/orchestrator/planner.ts, a fixed plan and a plan from
-- a model's answer, and the fixed chain of agent-os/src/adapters/planner.heuristic.ts.
use nastroyka_claude.Base.{false, ℕ, Option, none, some, List, [], ◌∷◌, ◌++◌, Text, text}
use nastroyka_claude.Domain.Json.{Json, Items, nil, cons, end, field, str, arr, obj}
use nastroyka_claude.Domain.Errors.{Result, ok, err, invalid_plan}
use nastroyka_claude.Runtime.Deps.{user}
use nastroyka_claude.Planner.{Plan, normalize_plan, extract_json}
use nastroyka_claude.Models.{ModelProvider}

-- StaticPlanner.plan
unfoldable pub static_plan : Json → ℕ → Text → Result Plan
static_plan fixed calls task = normalize_plan fixed

-- PLANNER_SYSTEM_PROMPT
unfoldable pub planner_system_prompt : Text
planner_system_prompt =
    text
      "You are an orchestrator that decomposes a task into a small set of subtasks, each assigned to a typed agent. Respond ONLY with JSON of the shape: {\"subtasks\":[{\"id\":\"s1\",\"agentType\":\"researcher\",\"prompt\":\"...\",\"dependsOn\":[]}]}. agentType must be one of: researcher, writer, analyst, coder, reviewer. Use dependsOn to express ordering between subtask ids."

abbrev or_empty : Option Text → Text
or_empty none = []
or_empty (some t) = t

abbrev normalize_parsed : Option Json → Result Plan
normalize_parsed none = err (invalid_plan (text "model did not return parseable JSON"))
normalize_parsed (some parsed) = normalize_plan parsed

-- ModelPlanner.plan; the first argument is JSON.parse, which gives nothing where it throws.
unfoldable pub model_plan : (Text → Option Json) → ModelProvider → ℕ → Text → Result Plan
model_plan parse model calls task =
    elim (model calls (record {
      system = planner_system_prompt;
      messages = record { role = user; content = task; tool_call_id = none } ∷ [];
      tools = [];
      web_search = false;
    })) [
      | err e ↦ err e
      | ok turn ↦ elim (extract_json (or_empty turn.text)) [
        | err e ↦ err e
        | ok raw ↦ normalize_parsed (parse raw)
      ]
    ]

items_of : List Text → Items
items_of [] = nil
items_of (t ∷ ts) = cons (str t) (items_of ts)

abbrev subtask : Text → Text → Text → List Text → Json
subtask id agent_type prompt depends_on = obj (
    field (text "id") (str id) (
      field (text "agentType") (str agent_type) (
        field (text "prompt") (str prompt)
          (field (text "dependsOn") (arr (items_of depends_on)) end))))

unfoldable pub heuristic_subtasks : Text → Json
unfolding items_of
heuristic_subtasks task = obj (
    field (text "subtasks")
      (arr (
        cons
          (subtask (text "research") (text "researcher")
            (text "Собери информацию по задаче: " ++ task) [])
          (cons
            (subtask (text "analyze") (text "analyst")
              (text "Проанализируй собранное по задаче: " ++ task) (text "research" ∷ []))
            (cons
              (subtask (text "write") (text "writer")
                (text "Напиши итоговый результат по задаче: " ++ task) (text "analyze" ∷ []))
              nil))))
      end)

-- HeuristicPlanner.plan
unfoldable pub heuristic_plan : ℕ → Text → Result Plan
heuristic_plan calls task = normalize_plan (heuristic_subtasks task)
