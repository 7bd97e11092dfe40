-- ===== src/Domain/Types.antt =====
-- agent-os/src/domain/types.ts. Optional fields are `Option`s; latencies and the texts that only
-- name the producing model are left out.
use nastroyka_claude.Base.{ℕ, Bool, true, false, Option, List, Text}
use nastroyka_claude.Domain.Json.{Json}

pub data RunStatus : Type 0 where
  queued running paused succeeded failed canceled : RunStatus

pub data AgentType : Type 0 where
  researcher writer analyst coder orchestrator reviewer : AgentType

pub data MemoryKind : Type 0 where
  short_term long_term episodic : MemoryKind

pub data StepRole : Type 0 where
  system assistant tool user : StepRole

pub record Org : Type 0 where
  pub id : Text
  pub name : Text

pub record Agent : Type 0 where
  pub id : Text
  pub org_id : Text
  pub name : Text
  pub type : AgentType
  pub system_prompt : Text
  pub allowed_tools : Option (List Text)

pub record Run : Type 0 where
  pub id : Text
  pub org_id : Text
  pub agent_id : Text
  pub status : RunStatus
  pub input : Json
  pub output : Option Json
  pub error : Option Text
  pub attempts : ℕ
  pub parent_run_id : Option Text

pub record Step : Type 0 where
  pub run_id : Text
  pub index : ℕ
  pub role : StepRole
  pub tool_name : Option Text
  pub tool_call_id : Option Text
  pub input : Option Json
  pub output : Option Json
  pub tokens_in : Option ℕ
  pub tokens_out : Option ℕ

pub record DeadLetterRecord : Type 0 where
  pub run_id : Text
  pub payload : Text
  pub failure_reason : Text
  pub attempts : ℕ

pub record MemoryRecord : Type 0 where
  pub agent_id : Text
  pub kind : MemoryKind
  pub content : Json
  pub run_id : Option Text
  pub created_at : Option ℕ

pub data ChatRole : Type 0 where
  user agent : ChatRole

pub record ChatMessageRecord : Type 0 where
  pub id : Option Text
  pub org_id : Text
  pub agent_id : Text
  pub role : ChatRole
  pub text : Text
  pub run_id : Option Text
  pub reactions : Option (List Text)
  pub created_at : Option ℕ

pub record ToolCall : Type 0 where
  pub id : Text
  pub name : Text
  pub input : Json

pub record ModelTurn : Type 0 where
  pub text : Option Text
  pub tool_calls : List ToolCall
  pub tokens_in : ℕ
  pub tokens_out : ℕ

-- a === b on the string unions
abbrev pub eq_type : AgentType → AgentType → Bool
eq_type researcher researcher = true
eq_type writer writer = true
eq_type analyst analyst = true
eq_type coder coder = true
eq_type orchestrator orchestrator = true
eq_type reviewer reviewer = true
eq_type _ _ = false

abbrev pub eq_status : RunStatus → RunStatus → Bool
eq_status queued queued = true
eq_status running running = true
eq_status paused paused = true
eq_status succeeded succeeded = true
eq_status failed failed = true
eq_status canceled canceled = true
eq_status _ _ = false

abbrev pub eq_role : ChatRole → ChatRole → Bool
eq_role user user = true
eq_role agent agent = true
eq_role _ _ = false

abbrev pub eq_kind : MemoryKind → MemoryKind → Bool
eq_kind short_term short_term = true
eq_kind long_term long_term = true
eq_kind episodic episodic = true
eq_kind _ _ = false
