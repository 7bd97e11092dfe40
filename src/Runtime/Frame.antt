-- ===== src/Runtime/Frame.antt =====
-- agent-os/src/agent/runtime.ts: the runs that an execution writes.
use nastroyka_claude.Base.{
  ℕ, zero, suc, ◌+◌, ◌≡◌, ◌≢◌, refl, eq_text_iff, List, [], ◌∷◌, Text, Map, arith,
}
use nastroyka_claude.Domain.Types.{RunStatus, Agent, Run, ToolCall, MemoryRecord}
use nastroyka_claude.Domain.Errors.{Error}
use nastroyka_claude.Repo.{Patch}
use nastroyka_claude.Exec.{Exec}
use nastroyka_claude.Exec.Keeps.{Keeps, Keeps-bind}
use nastroyka_claude.Repo
use nastroyka_claude.Base.Maps
use nastroyka_claude.System.{System, set_status}
use nastroyka_claude.System.Rules.{
  OnRuns, Holds, on_runs_rules, set_status-other, Holds-Ignores, Ignores,
}
use nastroyka_claude.Runtime.Deps.{RuntimeDeps, ModelRequest, call_model, recall_memory, remember}
use nastroyka_claude.Runtime.Loop.{
  Progress, invoke_tool, run_call, run_calls, succeed, finish, take_turn, after_turn, iterate,
}
use nastroyka_claude.Runtime.{compose_system, attempt_failed, start, execute_run}

module _ {J : Map Run → Map Agent → Type 0} (deps : RuntimeDeps) where
  call_model-OnRuns : (request : ModelRequest) → Keeps (OnRuns J) (call_model deps request)
  unfolding call_model
  call_model-OnRuns request = record { at = λ s h. record { runs = h.runs } }

  recall_memory-OnRuns :
      (agent_id task : Text) → Keeps (OnRuns J) (recall_memory deps agent_id task)
  unfolding recall_memory
  recall_memory-OnRuns agent_id task = record {
    at = λ s h. record { runs = ground (arith, h.runs) };
  }

  pub remember-OnRuns : (m : MemoryRecord) → Keeps (OnRuns J) (remember deps m)
  unfolding remember
  remember-OnRuns m = record { at = λ s h. record { runs = ground (arith, h.runs) } }

  pub compose_system-OnRuns :
      (agent : Agent) (run : Run) → Keeps (OnRuns J) (compose_system deps agent run)
  unfolding compose_system
  compose_system-OnRuns agent run = search (on_runs_rules, recall_memory-OnRuns)

module _ {J : Map Run → Map Agent → Type 0} (deps : RuntimeDeps) (run_id org_id : Text)
    (agent : Agent) where
  invoke_tool-OnRuns :
      (call : ToolCall) → Keeps (OnRuns J) (invoke_tool deps run_id org_id agent call)
  unfolding invoke_tool
  invoke_tool-OnRuns call = record { at = λ s h. record { runs = h.runs } }

  run_call-OnRuns :
      (call : ToolCall) (p : Progress) → Keeps (OnRuns J) (run_call deps run_id org_id agent call p)
  unfolding run_call
  run_call-OnRuns call p = search (on_runs_rules, invoke_tool-OnRuns)

  pub run_calls-OnRuns :
      (calls : List ToolCall) (p : Progress)
      → Keeps (OnRuns J) (run_calls deps run_id org_id agent calls p)
  unfolding run_calls
  run_calls-OnRuns [] p = search on_runs_rules
  run_calls-OnRuns (call ∷ calls) p =
      search (on_runs_rules, run_call-OnRuns, λ (q : Progress). run_calls-OnRuns calls q)

  pub take_turn-OnRuns :
      (task system : Text) (iter : ℕ) (p : Progress)
      → Keeps (OnRuns J) (take_turn deps run_id org_id agent task system iter p)
  unfolding take_turn
  take_turn-OnRuns task system iter p = search (on_runs_rules, call_model-OnRuns)

module _ (deps : RuntimeDeps) (run_id : Text) (J : Map Run → Map Agent → Type 0)
    (other : Ignores J run_id) where
  set_other : (status : RunStatus) (p : Patch) → Keeps (OnRuns J) (set_status run_id status p)
  set_other status p = set_status-other J run_id status p other

  module _ (org_id : Text) (agent : Agent) where
    succeed-frame :
        (task answer : Text) (p : Progress) (next : RunStatus)
        → Keeps (OnRuns J) (succeed deps run_id org_id agent task answer p next)
    unfolding succeed
    succeed-frame task answer p next = search (on_runs_rules, set_other, remember-OnRuns) depth 14

    finish-frame :
        (task answer : Text) (p : Progress)
        → Keeps (OnRuns J) (finish deps run_id org_id agent task answer p)
    unfolding finish
    finish-frame task answer p = search (on_runs_rules, succeed-frame)

    after_turn-frame :
        (task : Text) (next : Progress → Exec System (Unit {0}))
        → ((p : Progress) → Keeps (OnRuns J) (next p))
        → (calls : List ToolCall) (answer : Text) (p : Progress)
        → Keeps (OnRuns J) (after_turn deps run_id org_id agent task next calls answer p)
    unfolding after_turn
    after_turn-frame task next h [] answer p = finish-frame task answer p
    after_turn-frame task next h (call ∷ calls) answer p =
        Keeps-bind (run_calls-OnRuns deps run_id org_id agent (call ∷ calls) _) h

    iterate-frame :
        (task system : Text) (left iter : ℕ) (p : Progress)
        → Keeps (OnRuns J) (iterate deps run_id org_id agent task system left iter p)
    unfolding iterate
    iterate-frame task system zero iter p = search on_runs_rules
    iterate-frame task system (suc left) iter p =
        Keeps-bind (take_turn-OnRuns deps run_id org_id agent task system iter p) λ t.
          after_turn-frame task _ (iterate-frame task system left (iter + 1)) t.0.tool_calls t.1 t.2

  attempt_failed-frame :
      (org_id : Text) (e : Error) → Keeps (OnRuns J) (attempt_failed deps run_id org_id e)
  unfolding attempt_failed
  attempt_failed-frame org_id e = search (on_runs_rules, set_other) depth 10

  start-frame : (run : Run) (agent : Agent) → Keeps (OnRuns J) (start deps run_id run agent)
  unfolding start
  start-frame run agent =
      search (on_runs_rules, set_other, compose_system-OnRuns, iterate-frame, attempt_failed-frame)
        depth 14

  pub execute_run-OnRuns : Keeps (OnRuns J) (execute_run deps run_id)
  unfolding execute_run
  execute_run-OnRuns = search (on_runs_rules, start-frame) depth 10

-- Executing a run, whatever the model, the tools, the memory and the masker do and whether it
-- returns or throws, changes no run with another id.
pub execute_run_frame :
    (deps : RuntimeDeps) (run_id j : Text) (s : System)
    → run_id ≢ j
    → Repo.get_run j (execute_run deps run_id s).1.repo ≡ Repo.get_run j s.repo
unfolding Repo.get_run
execute_run_frame deps run_id j s ne =
    ((execute_run-OnRuns deps run_id (Holds j (Maps.get j s.repo.runs))
        (Holds-Ignores run_id j _ (ground (arith, eq_text_iff run_id j)))).at
      s (record { runs = refl })).runs
