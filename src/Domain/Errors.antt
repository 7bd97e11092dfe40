-- ===== src/Domain/Errors.antt =====
-- The errors that the program throws, with the texts of their messages, and the results of code
-- that may throw. The classes stand in the files that throw them; `thrown` is an error without a
-- class of its own, of the repository or of code outside it, with its message.
pub mod Human
use nastroyka_claude.Base.{ℕ, List, [], ◌∷◌, ◌++◌, Text, text, decimal}
use nastroyka_claude.Domain.Types.{
  RunStatus, queued, running, paused, succeeded, failed, canceled, AgentType, researcher, writer,
  analyst, coder, orchestrator, reviewer,
}

pub data Error : Type 0 where
  illegal_transition : (from to : RunStatus) → Error
  run_not_found : (run_id : Text) → Error
  agent_not_found : (agent_id : Text) → Error
  max_iterations : (limit : ℕ) → Error
  empty_model_output : Error
  tool_not_allowed : (agent_id tool_name : Text) → Error
  unknown_tool : (name : Text) → Error
  domain_not_allowed : (host : Text) → Error
  no_planner : Error
  invalid_plan : (reason : Text) → Error
  no_agent_of_type : (type : AgentType) → (org_id : Text) → Error
  subtask_failed : (subtask_id status_text : Text) → Error
  update_missing_run : (run_id : Text) → Error
  increment_missing_run : (run_id : Text) → Error
  not_found : (what : Text) → Error
  validation : (reason : Text) → Error
  no_processor : Error
  thrown : (reason : Text) → Error

pub data Result {ℓ} (A : Type ℓ) : Type ℓ where
  ok : A → Result A
  err : Error → Result A

unfoldable pub status_text : RunStatus → Text
status_text queued = text "queued"
status_text running = text "running"
status_text paused = text "paused"
status_text succeeded = text "succeeded"
status_text failed = text "failed"
status_text canceled = text "canceled"

unfoldable pub type_text : AgentType → Text
type_text researcher = text "researcher"
type_text writer = text "writer"
type_text analyst = text "analyst"
type_text coder = text "coder"
type_text orchestrator = text "orchestrator"
type_text reviewer = text "reviewer"

-- EMPTY_OUTPUT_ERROR
unfoldable pub empty_output_error : Text
empty_output_error = text "модель вернула пустой ответ (без текста и без инструментов)"

-- err.message
unfoldable pub message : Error → Text
unfolding status_text type_text empty_output_error
message (illegal_transition from to) =
    text "Illegal run transition: " ++ (status_text from ++ (text " -> " ++ status_text to))
message (run_not_found run_id) = text "Run not found: " ++ run_id
message (agent_not_found agent_id) = text "Agent not found: " ++ agent_id
message (max_iterations limit) =
    text "Run exceeded max iterations (" ++ (decimal limit ++ text ") — needs human review")
message empty_model_output = empty_output_error
message (tool_not_allowed agent_id tool_name) =
    text "Tool \"" ++ (tool_name ++ (text "\" is not allowed for agent " ++ agent_id))
message (unknown_tool name) = text "Unknown tool: " ++ name
message (domain_not_allowed host) = text "Domain not in allowlist: " ++ host
message no_planner = text "Orchestrator run dispatched without a planner"
message (invalid_plan reason) = text "Invalid orchestration plan: " ++ reason
message (no_agent_of_type type org_id) =
    text "No agent of type \"" ++ (type_text type ++ (text "\" available in org " ++ org_id))
message (subtask_failed subtask_id status) =
    text "Subtask \""
    ++ (subtask_id ++ (text "\" did not succeed (status=" ++ (status ++ text ")")))
message (update_missing_run run_id) = text "updateRunStatus: run not found " ++ run_id
message (increment_missing_run run_id) = text "incrementRunAttempts: run not found " ++ run_id
message (not_found what) = text "Not found: " ++ what
message (validation reason) = reason
message no_processor = text "InMemoryQueue: no processor registered"
message (thrown reason) = reason
