-- ===== src/System.antt =====
-- The state of one process and the actions on it that the runtime, the orchestrator, the worker and
-- the control plane share. `events` is the trace of what was published on the event bus.
pub mod Rules
use nastroyka_claude.Base.{
  ℕ, ◌+◌, Bool, true, false, Option, none, some, List, [], ◌∷◌, ◌++◌, Text, text, Map, decimal,
}
use nastroyka_claude.Domain.Json.{Json, num, str, obj, end, field}
use nastroyka_claude.Domain.Types.{RunStatus, Agent, Run, Step, MemoryRecord}
use nastroyka_claude.Domain.Errors.{
  Error, Result, ok, err, run_not_found, agent_not_found, status_text,
}
use nastroyka_claude.Repo
use nastroyka_claude.Repo.{Repo, Patch}
use nastroyka_claude.Exec.{Exec, pure, throw, lift, gets, modify, ◌>>=◌, ◌>>◌}

-- agent-os/src/events/bus.ts
pub data RunEventType : Type 0 where
  run_started step_appended run_succeeded run_failed run_dead_lettered : RunEventType
  run_needs_human orchestration_planned orchestration_subtask : RunEventType

pub record RunEvent : Type 0 where
  pub type : RunEventType
  pub run_id : Text
  pub org_id : Text
  pub data_of : Json

-- `deliveries` belongs to the in-memory queue. The counters number the calls of the model and of the
-- tools, `remembered` is what the memory store took.
pub record System : Type 0 where
  pub repo : Repo
  pub deliveries : Map ℕ
  pub events : List RunEvent
  pub model_calls : ℕ
  pub tool_runs : ℕ
  pub remembered : List MemoryRecord

abbrev pub nat_json : ℕ → Json
nat_json n = num (decimal n)

abbrev pub meta1 : Text → Json → Json
meta1 k v = obj (field k v end)

abbrev pub meta2 : Text → Json → Text → Json → Json
meta2 k v l w = obj (field k v (field l w end))

unfoldable pub or_throw : {A : Type 0} → Error → Option A → Exec System A
unfolding throw pure
or_throw e none = throw e
or_throw e (some a) = pure a

unfoldable pub find_run : Text → Exec System (Option Run)
unfolding gets Repo.get_run
find_run run_id = gets (λ s. Repo.get_run run_id s.repo)

unfoldable pub require_run : Text → Exec System Run
unfolding find_run or_throw ◌>>=◌
require_run run_id = do found ← find_run run_id; or_throw (run_not_found run_id) found

unfoldable pub require_agent : Text → Exec System Agent
unfolding or_throw gets Repo.get_agent ◌>>=◌
require_agent agent_id = do
  found ← gets (λ s. Repo.get_agent agent_id s.repo)
  or_throw (agent_not_found agent_id) found

-- `repo.audit`, with the meta record
unfoldable pub write_audit :
    (org_id run_id actor action : Text) → Option Json → Exec System (Unit {0})
unfolding modify Repo.audit
write_audit org_id run_id actor action meta = modify λ s. record s {
  repo =
      Repo.audit
        (record {
          org_id = org_id;
          run_id = some run_id;
          actor = actor;
          action = action;
          meta = meta;
        })
        s.repo;
}

unfoldable pub emit : Bool → RunEventType → (run_id org_id : Text) → Json → Exec System (Unit {0})
unfolding modify
emit false type run_id org_id value = modify λ s. s
emit true type run_id org_id value = modify λ s. record s {
  events =
      s.events ++ record { type = type; run_id = run_id; org_id = org_id; data_of = value } ∷ [];
}

abbrev after_update : System → Result Repo → Result (Unit {0}) × System
after_update s (ok r) = (ok tt, record s { repo = r })
after_update s (err e) = (err e, s)

unfoldable pub set_status : Text → RunStatus → Patch → Exec System (Unit {0})
unfolding Repo.update_run_status
set_status run_id status p s = after_update s (Repo.update_run_status run_id status p s.repo)

unfoldable pub add_step : Step → Exec System (Unit {0})
unfolding modify Repo.append_step
add_step step = modify λ s. record s { repo = Repo.append_step step s.repo }
