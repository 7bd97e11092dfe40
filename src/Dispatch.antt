-- ===== src/Dispatch.antt =====
-- agent-os/src/agent/dispatch.ts: the run goes to the runtime or to the orchestrator.
use nastroyka_claude.Base.{not, ◌&&◌, Option, none, some, Text, if◌then◌else◌}
use nastroyka_claude.Domain.Types.{orchestrator, eq_type, Agent, Run}
use nastroyka_claude.Domain.Errors.{no_planner}
use nastroyka_claude.Exec.{Exec, throw, ◌>>=◌}
use nastroyka_claude.System.{System, require_run, require_agent}
use nastroyka_claude.Runtime.Deps.{RuntimeDeps}
use nastroyka_claude.Runtime.Prompt.{is_personal_chat}
use nastroyka_claude.Runtime.{execute_run}
use nastroyka_claude.Orchestrator.{OrchestratorDeps, execute_orchestration}

-- Without a planner only the runtime's part of the dependencies is there.
pub record DispatchDeps : Type 0 where
  pub runtime : RuntimeDeps
  pub orchestration : Option OrchestratorDeps

abbrev with_planner : Option OrchestratorDeps → Text → Exec System (Unit {0})
with_planner none run_id = throw no_planner
with_planner (some deps) run_id = execute_orchestration deps run_id

unfoldable pub route : DispatchDeps → Text → Run → Agent → Exec System (Unit {0})
route deps run_id run agent =
    if eq_type agent.type orchestrator && not (is_personal_chat run.input)
    then with_planner deps.orchestration run_id
    else execute_run deps.runtime run_id

unfoldable pub dispatch_run : DispatchDeps → Text → Exec System (Unit {0})
dispatch_run deps run_id = do
  run ← require_run run_id
  agent ← require_agent run.agent_id
  route deps run_id run agent
