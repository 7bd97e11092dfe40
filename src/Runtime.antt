-- ===== src/Runtime.antt =====
-- agent-os/src/agent/runtime.ts: the tool-use loop of one run. Live token events and measured
-- latencies are left out; the model provider, the tool bodies, the memory store and the PII masker
-- are fields of `RuntimeDeps`.
pub mod Deps
pub mod Prompt
pub mod Loop
pub mod Frame
pub mod Outcome
use nastroyka_claude.Base.{
  ℕ, Bool, true, false, not, Option, none, some, List, [], ◌∷◌, ◌++◌, map, Text, text,
  if◌then◌else◌,
}
use nastroyka_claude.Domain.Json.{Json, str}
use nastroyka_claude.Domain.Types.{RunStatus, running, Agent, Run, eq_status}
use nastroyka_claude.Domain.Errors.{Error, Result, ok, err, status_text, message}
use nastroyka_claude.Domain.StateMachine.{transition, is_terminal}
use nastroyka_claude.Repo.{Patch, no_patch}
use nastroyka_claude.Exec.{Exec, pure, throw, lift, gets, try_catch, when, ◌>>=◌, ◌>>◌}
use nastroyka_claude.System.{
  System, nat_json, meta1, require_run, require_agent, write_audit, emit, run_started, set_status,
}
use nastroyka_claude.Runtime.Deps.{RuntimeDeps, limit_of, recall_memory}
use nastroyka_claude.Runtime.Prompt.{to_prompt, is_personal_chat, chat_system, memory_section}
use nastroyka_claude.Runtime.Loop.{Progress, iterate, first_progress}

abbrev pub error_patch : Text → Patch
error_patch reason = record { output = none; error = some (some reason); attempts = none }

module _ (deps : RuntimeDeps) where
  -- The run goes to 'running' unless it is there already.
  unfoldable pub enter_running : Text → RunStatus → Exec System (Unit {0})
  enter_running run_id status =
      when (not (eq_status status running))
        do next ← lift (transition status running); set_status run_id next no_patch

  -- The system prompt: the chat directive, the agent's own prompt, and what memory recalls.
  unfoldable pub compose_system : Agent → Run → Exec System Text
  compose_system agent run = do
    let base =
        if is_personal_chat run.input then chat_system agent.system_prompt else agent.system_prompt
    recalled ← recall_memory deps agent.id (to_prompt run.input)
    pure (base ++ memory_section recalled)

  -- The catch clause: the attempt's error is recorded, and thrown again.
  unfoldable pub attempt_failed : (run_id org_id : Text) → Error → Exec System (Unit {0})
  attempt_failed run_id org_id e = do
    set_status run_id running (error_patch (message e))
    write_audit org_id run_id (text "runtime") (text "run.attempt_failed")
        (some (meta1 (text "error") (str (message e))))
    throw e

  unfoldable pub start : Text → Run → Agent → Exec System (Unit {0})
  unfolding enter_running
  start run_id run agent = do
    enter_running run_id run.status
    write_audit run.org_id run_id (text "runtime") (text "run.started")
        (some (meta1 (text "attempt") (nat_json run.attempts)))
    emit deps.has_events run_started run_id run.org_id
        (meta1 (text "attempt") (nat_json run.attempts))
    system ← compose_system agent run
    try_catch
        (iterate deps run_id run.org_id agent (to_prompt run.input) system (limit_of deps) 0
          (first_progress (to_prompt run.input)))
        (attempt_failed run_id run.org_id)

  -- A run in a terminal state is left alone.
  unfoldable pub execute_run : Text → Exec System (Unit {0})
  execute_run run_id = do
    run ← require_run run_id
    if is_terminal run.status
        then write_audit run.org_id run_id (text "runtime") (text "run.skipped_terminal")
            (some (meta1 (text "status") (str (status_text run.status))))
        else (do agent ← require_agent run.agent_id; start run_id run agent)
