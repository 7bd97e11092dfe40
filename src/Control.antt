-- ===== src/Control.antt =====
-- agent-os/src/api/controlPlane.ts on the in-memory repository and queue: the operations that create
-- work, reopen it and report on it. What `randomUUID()` and `Date.now()` give is an argument.
pub mod Phase
pub mod Prompt
pub mod Chat
pub mod Requeue
pub mod Budget
pub mod Catalog
pub mod Team
use nastroyka_claude.Base.{
  ℕ, suc, Bool, true, false, not, ◌&&◌, Option, none, some, List, [], ◌∷◌, ◌++◌, map, keep, take,
  take_last, length, ltb, Text, text, eq_text, is_blank, if◌then◌else◌,
}
use nastroyka_claude.Domain.Json.{Json, str, obj, field, end, prop, is_true}
use nastroyka_claude.Domain.Types.{
  RunStatus, queued, failed, AgentType, orchestrator, Org, Agent, Run, DeadLetterRecord,
  ChatMessageRecord, eq_status,
}
use nastroyka_claude.Domain.Errors.{Error, not_found, validation, status_text, type_text}
use nastroyka_claude.Domain.Errors.Human.{humanize_run_error}
use nastroyka_claude.Repo
use nastroyka_claude.Repo.{Patch}
use nastroyka_claude.Repo.Chat.{clear_chat_messages, toggle_chat_reaction}
use nastroyka_claude.Exec.{Exec, pure, throw, gets, modify, ◌>>=◌, ◌>>◌}
use nastroyka_claude.System.{System, meta2, or_throw, find_run, write_audit, set_status}
use nastroyka_claude.Metrics.{RunTraceStep, run_trace}
use nastroyka_claude.Worker.{WorkerDeps, reset_deliveries, enqueue}

-- repo.getOrg, or NotFoundError
unfoldable pub require_org : Text → Exec System Org
require_org org_id = do
  found ← gets (λ s. Repo.get_org org_id s.repo)
  or_throw (not_found (text "org " ++ org_id)) found

abbrev in_org : Text → Option Agent → Option Agent
in_org org_id none = none
in_org org_id (some a) = if eq_text a.org_id org_id then some a else none

-- !agent || agent.orgId !== orgId
unfoldable pub require_member : Text → Text → Exec System Agent
require_member org_id agent_id = do
  found ← gets (λ s. Repo.get_agent agent_id s.repo)
  or_throw (not_found (text "agent " ++ agent_id)) (in_org org_id found)

unfoldable pub require_known_run : Text → Exec System Run
require_known_run run_id = do
  found ← find_run run_id
  or_throw (not_found (text "run " ++ run_id)) found

unfoldable pub refuse_if : Bool → Text → Exec System (Unit {0})
refuse_if true reason = throw (validation reason)
refuse_if false reason = pure tt

pub record NewAgent : Type 0 where
  pub org_id : Text
  pub name : Text
  pub type : AgentType
  pub system_prompt : Text
  pub allowed_tools : Option (List Text)

unfoldable pub add_agent : Text → NewAgent → Exec System Agent
unfolding Repo.create_agent
add_agent uuid args s =
    let (a, r) =
      Repo.create_agent uuid args.org_id args.name args.type args.system_prompt args.allowed_tools
        s.repo in
    (nastroyka_claude.Domain.Errors.ok a, record s { repo = r })

-- repo.audit for an action that is about no run
unfoldable pub audit_org : Text → Text → Json → Exec System (Unit {0})
unfolding Repo.audit
audit_org org_id action meta = modify λ s. record s {
  repo =
      Repo.audit
        (record {
          org_id = org_id;
          run_id = none;
          actor = text "control-plane";
          action = action;
          meta = some meta;
        })
        s.repo;
}

unfoldable pub create_agent : Text → NewAgent → Exec System Agent
unfolding type_text
create_agent uuid args = do
  require_org args.org_id
  refuse_if (is_blank args.name) (text "agent name is required")
  a ← add_agent uuid args
  audit_org args.org_id (text "agent.created")
      (meta2 (text "agentId") (str a.id) (text "type") (str (type_text a.type)))
  pure a

unfoldable pub list_agents : Text → Exec System (List Agent)
unfolding Repo.list_agents
list_agents org_id = gets λ s. Repo.list_agents org_id s.repo

-- The run that `createRun` stores.
abbrev pub new_run : (run_id org_id agent_id : Text) → Json → Run
new_run run_id org_id agent_id input = record {
  id = run_id;
  org_id = org_id;
  agent_id = agent_id;
  status = queued;
  input = input;
  output = none;
  error = none;
  attempts = 0;
  parent_run_id = none;
}

unfoldable pub store_run : Run → Exec System (Unit {0})
unfolding modify
store_run run = modify λ s. record s { repo = (Repo.create_run run s.repo).1 }

-- The queue of the control plane; a run has at most as many deliveries as attempts, and one more is
-- allowed for here.
unfoldable pub deliver : WorkerDeps → Text → Exec System (Unit {0})
deliver deps run_id = enqueue deps run_id (suc deps.max_attempts)

unfoldable pub create_run : WorkerDeps → (run_id org_id agent_id : Text) → Json → Exec System Text
create_run deps run_id org_id agent_id input = do
  require_org org_id
  require_member org_id agent_id
  store_run (new_run run_id org_id agent_id input)
  write_audit org_id run_id (text "control-plane") (text "run.created") none
  deliver deps run_id
  pure run_id

unfoldable pub submit_task : WorkerDeps → (run_id org_id task : Text) → Exec System Text
unfolding Repo.find_agent_by_type
submit_task deps run_id org_id task = do
  require_org org_id
  refuse_if (is_blank task) (text "task is required")
  found ← gets (λ s. Repo.find_agent_by_type org_id orchestrator s.repo)
  lead ← or_throw (validation (text "org " ++ (org_id ++ text " has no orchestrator agent"))) found
  create_run deps run_id org_id lead.id (obj (field (text "prompt") (str task) end))

-- getRun without the trace.
unfoldable pub get_run : Text → Exec System (Run × List RunTraceStep × Option Text)
unfolding humanize_run_error
get_run run_id = do
  run ← require_known_run run_id
  trace ← gets (λ s. run_trace run_id s.repo)
  pure (run, trace, humanize_run_error run.error (some run.status))

abbrev pub reopened : Patch
reopened = record { output = none; error = some none; attempts = some 0 }

unfoldable pub forget_dead_letter : Text → Exec System (Unit {0})
unfolding modify
forget_dead_letter run_id =
    modify λ s. record s { repo = Repo.mark_dead_letter_requeued run_id s.repo }

-- The part of `requeueDeadLetter` behind its guards.
unfoldable pub reopen : WorkerDeps → Text → Run → Exec System Text
reopen deps run_id run = do
  reset_deliveries run_id
  set_status run_id queued reopened
  forget_dead_letter run_id
  write_audit run.org_id run_id (text "control-plane") (text "run.requeued") none
  deliver deps run_id
  pure run_id

unfoldable pub requeue_dead_letter : WorkerDeps → Text → Exec System Text
unfolding status_text
requeue_dead_letter deps run_id = do
  run ← require_known_run run_id
  refuse_if (not (eq_status run.status failed)) (
      text "run "
      ++ (run_id ++ (text " is not in a failed state (" ++ (status_text run.status ++ text ")"))))
  reopen deps run_id run

unfoldable pub retry_run : WorkerDeps → Text → Exec System Text
retry_run deps run_id = requeue_dead_letter deps run_id

unfoldable pub list_dead_letters : Exec System (List DeadLetterRecord)
unfolding Repo.list_dead_letters
list_dead_letters = gets λ s. Repo.list_dead_letters s.repo

unfoldable pub list_agent_runs :
    (org_id agent_id : Text) → ℕ → Exec System (List (Run × Option Text))
unfolding Repo.list_runs_by_org humanize_run_error
list_agent_runs org_id agent_id limit = do
  require_member org_id agent_id
  gets λ s.
      map (λ (x : Run). (x, humanize_run_error x.error (some x.status)))
        (Repo.list_runs_by_org org_id (some agent_id) (some limit) s.repo)

unfoldable pub clear_thread : (org_id agent_id : Text) → Exec System ℕ
clear_thread org_id agent_id s =
    let (n, r) = clear_chat_messages org_id agent_id s.repo in
    (nastroyka_claude.Domain.Errors.ok n, record s { repo = r })

unfoldable pub clear_chat_history : (org_id agent_id : Text) → Exec System ℕ
clear_chat_history org_id agent_id = do require_member org_id agent_id; clear_thread org_id agent_id

unfoldable pub toggle_message :
    (org_id agent_id message_id emoji : Text) → Exec System (Option ChatMessageRecord)
toggle_message org_id agent_id message_id emoji s =
    let (found, r) = toggle_chat_reaction org_id agent_id message_id emoji s.repo in
    (nastroyka_claude.Domain.Errors.ok found, record s { repo = r })

abbrev is_bad_emoji : Text → Bool
is_bad_emoji [] = true
is_bad_emoji (c ∷ s) = ltb 8 (length (c ∷ s))

unfoldable pub react_to_message :
    (org_id agent_id message_id emoji : Text) → Exec System ChatMessageRecord
react_to_message org_id agent_id message_id emoji = do
  refuse_if (is_bad_emoji emoji) (text "недопустимая реакция")
  found ← toggle_message org_id agent_id message_id emoji
  or_throw (not_found (text "message " ++ message_id)) found
