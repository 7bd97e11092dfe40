-- ===== src/Tools.antt =====
-- agent-os/src/tools/registry.ts: the registry of tools. A tool's body runs code outside the
-- repository; the number of tool runs so far stands for what it may find there.
pub mod Bodies
pub mod Egress
pub mod Specs
pub mod Search
use nastroyka_claude.Base.{ℕ, Bool, none, some, List, map, Text, Map}
use nastroyka_claude.Base.Maps
use nastroyka_claude.Domain.Json.{Json}
use nastroyka_claude.Domain.Errors.{Result, err, unknown_tool}

pub record ToolSchema : Type 0 where
  pub name : Text
  pub description : Text
  pub input_schema : Json

-- `network` is true for 'allowlist' and false for 'deny'.
pub record ToolSecurity : Type 0 where
  pub network : Bool
  pub cpu_ms : ℕ
  pub mem_mb : ℕ
  pub persist_fs : Bool

pub record ToolSpec : Type 0 where
  pub schema : ToolSchema
  pub security : ToolSecurity
  pub run : ℕ → Json → List Text → Result Json

abbrev pub ToolRegistry : Type 0
ToolRegistry = Map ToolSpec

unfoldable pub register : ToolSpec → ToolRegistry → ToolRegistry
register spec tools = Maps.set spec.schema.name spec tools

unfoldable pub schemas : ToolRegistry → List ToolSchema
schemas tools = map (λ (t : ToolSpec). t.schema) (Maps.values tools)

unfoldable pub run_tool : ToolRegistry → ℕ → Text → Json → List Text → Result Json
run_tool tools count name input domains = elim (Maps.get name tools) [
  | none ↦ err (unknown_tool name)
  | some spec ↦ spec.run count input domains
]
