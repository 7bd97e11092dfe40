-- ===== src/Metrics.antt =====
-- agent-os/src/observability/metrics.ts: traces, metrics and token counts read from the stored steps.
-- Steps have no latency here, so neither have these.
pub mod Burn
use nastroyka_claude.Base.{ℕ, ◌+◌, Option, none, some, List, [], ◌∷◌, map, length, Text, Map}
use nastroyka_claude.Base.Maps
use nastroyka_claude.Domain.Json.{Json, null, str, stringify}
use nastroyka_claude.Domain.Types.{RunStatus, StepRole, Run, Step}
use nastroyka_claude.Repo
use nastroyka_claude.Repo.{Repo}
use nastroyka_claude.Runtime.Prompt.{truncate}

pub record RunMetrics : Type 0 where
  pub run_id : Text
  pub status : RunStatus
  pub steps : ℕ
  pub tokens_in : ℕ
  pub tokens_out : ℕ

pub record RunTraceStep : Type 0 where
  pub index : ℕ
  pub role : StepRole
  pub tool_name : Option Text
  pub tokens_in : Option ℕ
  pub tokens_out : Option ℕ
  pub input_preview : Option Text
  pub output_preview : Option Text

abbrev preview_chars : ℕ
preview_chars = 2000

unfoldable pub preview : Option Json → Option Text
preview none = none
preview (some null) = none
preview (some (str t)) = some (truncate t preview_chars)
preview (some v) = some (truncate (stringify v) preview_chars)

unfoldable pub trace_step : Step → RunTraceStep
trace_step s = record {
  index = s.index;
  role = s.role;
  tool_name = s.tool_name;
  tokens_in = s.tokens_in;
  tokens_out = s.tokens_out;
  input_preview = preview s.input;
  output_preview = preview s.output;
}

unfoldable pub run_trace : Text → Repo → List RunTraceStep
run_trace run_id r = map trace_step (Repo.list_steps run_id r)

abbrev pub or_0 : Option ℕ → ℕ
or_0 none = 0
or_0 (some n) = n

-- The loop over the steps, with the sums so far.
unfoldable pub add_steps : List Step → ℕ → ℕ → ℕ × ℕ
add_steps [] tokens_in tokens_out = (tokens_in, tokens_out)
add_steps (s ∷ ss) tokens_in tokens_out =
    add_steps ss (tokens_in + or_0 s.tokens_in) (tokens_out + or_0 s.tokens_out)

unfoldable pub metrics_of : Run → List Step → RunMetrics
metrics_of run steps =
    let (tokens_in, tokens_out) = add_steps steps 0 0 in
    record {
      run_id = run.id;
      status = run.status;
      steps = length steps;
      tokens_in = tokens_in;
      tokens_out = tokens_out;
    }

unfoldable pub run_metrics : Text → Repo → Option RunMetrics
run_metrics run_id r = elim (Repo.get_run run_id r) [
  | none ↦ none
  | some run ↦ some (record (metrics_of run (Repo.list_steps run_id r)) { run_id = run_id })
]

-- steps.reduce((sum, s) => …, 0)
unfoldable pub step_tokens : ℕ → List Step → ℕ
step_tokens sum [] = sum
step_tokens sum (s ∷ ss) = step_tokens (sum + or_0 s.tokens_in + or_0 s.tokens_out) ss

-- The loop over the runs.
unfoldable pub burn_runs : Repo → List Run → Map ℕ → Map ℕ
burn_runs r [] burn = burn
burn_runs r (run ∷ runs) burn =
    let tokens = step_tokens 0 (Repo.list_steps run.id r) in
    burn_runs r runs (Maps.set run.agent_id (or_0 (Maps.get run.agent_id burn) + tokens) burn)

unfoldable pub token_burn_by_agent : Text → Repo → Map ℕ
token_burn_by_agent org_id r = burn_runs r (Repo.list_runs_by_org org_id none none r) []
