-- ===== src/Examples.antt =====
-- A small organisation on which the properties are exercised: one researcher, one orchestrator, a
-- queued run of each, a model that answers at once, and a planner with two subtasks.
pub mod Planning
pub mod Office
pub mod Wiki
pub mod Services
use nastroyka_claude.Base.{
  eq_text, mem_text, ◌≢◌, ◌⊎◌, ◌↔◌, not, ◌&&◌, keep, length, if◌then◌else◌, ℕ, zero, suc, ◌+◌, ◌≤◌,
  ◌<◌, ◌≡◌, refl, Bool, true, false, Option, none, some, List, [], ◌∷◌, ◌++◌, Text, text, arith,
  Map, ltb, leb,
}
use nastroyka_claude.Base.Maps
use nastroyka_claude.Domain.Json.{str, obj, field, end}
use nastroyka_claude.Domain.Types.{
  queued, succeeded, failed, Agent, Run, ModelTurn, researcher, orchestrator, ChatMessageRecord,
  agent, user,
}
use nastroyka_claude.Domain.StateMachine.{is_terminal}
use nastroyka_claude.Domain.StateMachine.Paths.{Reaches, Reaches-iff}
use nastroyka_claude.Repo
use nastroyka_claude.Repo.{Repo, empty}
use nastroyka_claude.Repo.Runs.{create_run_lem, or_new}
use nastroyka_claude.Repo.Chat.{
  append_chat_reply_if_absent, clear_chat_messages, in_thread, toggle_reaction, or_empty,
}
use nastroyka_claude.Repo.Threads.{
  append_chat_reply_once, clear_chat_messages_lem, toggle_reaction_lem,
}
use nastroyka_claude.Exec.Triple.{Ends}
use nastroyka_claude.System.{System}
use nastroyka_claude.Runtime.Deps.{RuntimeDeps, ModelRequest}
use nastroyka_claude.Runtime.{execute_run}
use nastroyka_claude.Runtime.Frame.{execute_run_frame}
use nastroyka_claude.Runtime.Outcome.{Found, Answered, Running, execute_run-Ends}
use nastroyka_claude.Planner.{OrchestrationSubtask}
use nastroyka_claude.Orchestrator.{OrchestratorDeps, execute_orchestration}
use nastroyka_claude.Orchestrator.Outcome.{Succeeded, execute_orchestration-Ends}
use nastroyka_claude.Worker.{WorkerDeps, enqueue}
use nastroyka_claude.Worker.Attempts.{enqueue_settles}
use nastroyka_claude.Worker.Burial.{IsSettled}
use nastroyka_claude.Control.{requeue_dead_letter}
use nastroyka_claude.Control.Requeue.{requeue_settles}
use nastroyka_claude.Control.Prompt.{history_lines, default_options}
use nastroyka_claude.Control.Budget.{total_length, history_lines_bounded}
use nastroyka_claude.Domain.Errors.{Result, ok, err, illegal_transition, validation, status_text}
use nastroyka_claude.Worker.Delivery.{enqueue_agent_missing}

abbrev answering : ℕ → ModelRequest → Result ModelTurn
answering n r = ok (record {
  text = some (text "Done: the report is ready.");
  tool_calls = [];
  tokens_in = 3;
  tokens_out = 5;
})

abbrev runtime_deps : RuntimeDeps
runtime_deps = record {
  complete = answering;
  tools = [];
  allowlist_domains = [];
  max_iterations = none;
  has_events = true;
  memory = none;
  pii = none;
}

abbrev subtask : Text → List Text → OrchestrationSubtask
subtask i deps = record { id = i; agent_type = researcher; prompt = text "find"; depends_on = deps }

abbrev planner_deps : OrchestratorDeps
planner_deps = record {
  runtime = runtime_deps;
  plan = λ n t. ok (subtask (text "s1") [] ∷ subtask (text "s2") (text "s1" ∷ []) ∷ []);
  complexity_threshold = some 0;
  default_agent_type = none;
  debate_rounds_env = none;
}

abbrev worker_deps : WorkerDeps
worker_deps = record {
  dispatch = record { runtime = runtime_deps; orchestration = some planner_deps };
  max_attempts = 3;
}

abbrev scout : Agent
scout = record {
  id = text "a1";
  org_id = text "o1";
  name = text "Scout";
  type = researcher;
  system_prompt = text "You research.";
  allowed_tools = none;
}

abbrev lead : Agent
lead = record scout { id = text "a2"; name = text "Lead"; type = orchestrator }

abbrev queued_run : Text → Text → Run
queued_run i a = record {
  id = i;
  org_id = text "o1";
  agent_id = a;
  status = queued;
  input = obj (field (text "prompt") (str (text "hello")) end);
  output = none;
  error = none;
  attempts = 0;
  parent_run_id = none;
}

abbrev done_run : Run
done_run = record (queued_run (text "r3") (text "a1")) { status = succeeded; attempts = 1 }

abbrev small_repo : Repo
small_repo = record empty {
  agents = (text "a1", scout) ∷ (text "a2", lead) ∷ [];
  runs =
      (text "r1", queued_run (text "r1") (text "a1"))
      ∷ (text "r2", queued_run (text "r2") (text "a2"))
      ∷ (text "r3", done_run)
      ∷ (text "r4", queued_run (text "r4") (text "gone"))
      ∷ [];
}

abbrev small : System
small = record {
  repo = small_repo;
  deliveries = [];
  events = [];
  model_calls = 0;
  tool_runs = 0;
  remembered = [];
}

stored_r1 : Repo.get_run (text "r1") small_repo ≡ some (queued_run (text "r1") (text "a1"))
unfolding Repo.get_run Maps.get eq_text
stored_r1 = refl

stored_r2 : Repo.get_run (text "r2") small_repo ≡ some (queued_run (text "r2") (text "a2"))
unfolding Repo.get_run Maps.get eq_text
stored_r2 = refl

stored_r3 : Repo.get_run (text "r3") small_repo ≡ some done_run
unfolding Repo.get_run Maps.get eq_text
stored_r3 = refl

stored_r4 : Repo.get_run (text "r4") small_repo ≡ some (queued_run (text "r4") (text "gone"))
unfolding Repo.get_run Maps.get eq_text
stored_r4 = refl

stored_a1 : Repo.get_agent (text "a1") small_repo ≡ some scout
unfolding Repo.get_agent Maps.get eq_text
stored_a1 = refl

stored_a2 : Repo.get_agent (text "a2") small_repo ≡ some lead
unfolding Repo.get_agent Maps.get eq_text
stored_a2 = refl

not_stored : Repo.get_agent (text "gone") small_repo ≡ none
unfolding Repo.get_agent Maps.get eq_text
not_stored = refl

queued_alive : is_terminal queued ≡ false
unfolding is_terminal
queued_alive = refl

succeeded_done : is_terminal succeeded ≡ true
unfolding is_terminal
succeeded_done = refl

different : text "r1" ≢ text "r2"
different e = ground (arith, e)

enqueue_settles_example :
    ((enqueue worker_deps (text "r2") 3 small).0 ≡ ok tt)
    × IsSettled 3 (text "r2") (enqueue worker_deps (text "r2") 3 small).1
enqueue_settles_example =
    enqueue_settles worker_deps planner_deps (text "r2") (queued_run (text "r2") (text "a2")) lead 3
      small refl stored_r2 stored_a2 queued_alive (omega arith) (omega arith)

enqueue_agent_missing_example :
    let (r, t) = enqueue (record worker_deps { max_attempts = 1 }) (text "r4") 1 small in
    (r ≡ err (illegal_transition queued failed))
    × (Repo.get_run (text "r4") t.repo
        ≡ some (record (queued_run (text "r4") (text "gone")) { attempts = 1 }))
    × (t.repo.dead_letters ≡ small.repo.dead_letters)
enqueue_agent_missing_example =
    enqueue_agent_missing (record worker_deps { max_attempts = 1 }) (text "r4")
      (queued_run (text "r4") (text "gone")) 0 small stored_r4 not_stored refl (omega arith)

execute_orchestration-Ends_example :
    let found : Found = record {
      run = queued_run (text "r2") (text "a2");
      agents = small_repo.agents;
    } in
    Ends
      (λ _. Succeeded (text "r2") found)
      (λ _. Running (text "r2") found)
      (execute_orchestration planner_deps (text "r2") small)
execute_orchestration-Ends_example =
    execute_orchestration-Ends planner_deps (text "r2") (queued_run (text "r2") (text "a2")) small
      stored_r2 queued_alive

execute_run-Ends_example :
    let found : Found = record {
      run = queued_run (text "r1") (text "a1");
      agents = small_repo.agents;
    } in
    Ends
      (λ _. Answered (text "r1") found)
      (λ _. Running (text "r1") found)
      (execute_run runtime_deps (text "r1") small)
execute_run-Ends_example =
    execute_run-Ends runtime_deps (text "r1") (queued_run (text "r1") (text "a1")) scout small
      stored_r1 stored_a1 queued_alive

execute_run_frame_example :
    Repo.get_run (text "r2") (execute_run runtime_deps (text "r1") small).1.repo
    ≡ Repo.get_run (text "r2") small.repo
execute_run_frame_example = execute_run_frame runtime_deps (text "r1") (text "r2") small different

Reaches-iff_example :
    Reaches queued failed ↔ ((queued ≡ failed) ⊎ ((is_terminal queued ≡ false) × (failed ≢ queued)))
Reaches-iff_example = Reaches-iff queued failed

create_run_lem_example :
    let (y, r') = Repo.create_run (queued_run (text "r3") (text "a2")) small_repo in
    (Repo.get_run (text "r3") r'
      ≡ (if eq_text (text "r3") (text "r3") then some y else Repo.get_run (text "r3") small_repo))
    × (y ≡ or_new (queued_run (text "r3") (text "a2")) (Repo.get_run (text "r3") small_repo))
create_run_lem_example = create_run_lem (queued_run (text "r3") (text "a2")) small_repo (text "r3")

abbrev reply : ChatMessageRecord
reply = record {
  id = none;
  org_id = text "o1";
  agent_id = text "a1";
  role = agent;
  text = nastroyka_claude.Base.text "Done.";
  run_id = none;
  reactions = none;
  created_at = none;
}

append_chat_reply_once_example :
    append_chat_reply_if_absent 2
      (text "v")
      (text "r1")
      reply
      (append_chat_reply_if_absent 1 (text "u") (text "r1") reply small_repo).1
    ≡ (false, (append_chat_reply_if_absent 1 (text "u") (text "r1") reply small_repo).1)
append_chat_reply_once_example =
    append_chat_reply_once 1 2 (text "u") (text "v") (text "r1") reply reply small_repo refl

abbrev replied : Repo
replied = record small_repo { chat_messages = reply ∷ record reply { role = user } ∷ [] }

clear_chat_messages_lem_example :
    let (n, r') = clear_chat_messages (text "o1") (text "a1") replied in
    (n + length r'.chat_messages ≡ length replied.chat_messages)
    × (keep (in_thread (text "o1") (text "a1")) r'.chat_messages ≡ (
        if eq_text (text "o1") (text "o1") && eq_text (text "a1") (text "a1")
        then []
        else keep (in_thread (text "o1") (text "a1")) replied.chat_messages))
clear_chat_messages_lem_example =
    clear_chat_messages_lem (text "o1") (text "a1") replied (text "o1") (text "a1")

toggle_reaction_lem_example :
    mem_text (text "+") (toggle_reaction (text "+") (some (text "+" ∷ text "-" ∷ []))) ≡ (
      if eq_text (text "+") (text "+")
      then not (mem_text (text "+") (or_empty (some (text "+" ∷ text "-" ∷ []))))
      else mem_text (text "+") (or_empty (some (text "+" ∷ text "-" ∷ []))))
toggle_reaction_lem_example =
    toggle_reaction_lem (text "+") (text "+") (some (text "+" ∷ text "-" ∷ []))

abbrev failed_run : Run
failed_run = record (queued_run (text "r5") (text "a1")) { status = failed; attempts = 3 }

abbrev failing : System
failing = record small { repo = record small_repo { runs = (text "r5", failed_run) ∷ [] } }

stored_r5 : Repo.get_run (text "r5") failing.repo ≡ some failed_run
unfolding Repo.get_run Maps.get eq_text
stored_r5 = refl

still_a1 : Repo.get_agent (text "a1") failing.repo ≡ some scout
unfolding Repo.get_agent Maps.get eq_text
still_a1 = refl

requeue_settles_example :
    ((requeue_dead_letter worker_deps (text "r5") failing).0 ≡ ok (text "r5"))
    × IsSettled 3 (text "r5") (requeue_dead_letter worker_deps (text "r5") failing).1
requeue_settles_example =
    requeue_settles worker_deps planner_deps (text "r5") failed_run scout failing refl stored_r5
      still_a1 refl

history_lines_bounded_example : total_length (history_lines default_options (reply ∷ [])) ≤ 4000
history_lines_bounded_example = history_lines_bounded default_options (reply ∷ [])
