-- ===== src/Orchestrator.antt =====
-- agent-os/src/orchestrator/orchestrator.ts with its children run in line. A run below the threshold
-- goes to one agent; others follow the planner's graph, and a debate with the reviewer.
pub mod Complexity
pub mod Report
pub mod Frame
pub mod Outcome
use nastroyka_claude.Base.{
  ℕ, zero, suc, ◌+◌, Bool, true, false, not, ◌&&◌, ◌||◌, Option, none, some, List, [], ◌∷◌, ◌++◌,
  map, any, length, ltb, last?, ◌==◌, Text, text, decimal, Map, min, max, if◌then◌else◌,
}
use nastroyka_claude.Base.Maps
use nastroyka_claude.Domain.Json.{
  Json, Items, nil, cons, Fields, null, bool, num, str, arr, obj, end, field,
}
use nastroyka_claude.Domain.Types.{
  RunStatus, queued, running, succeeded, AgentType, researcher, reviewer, eq_type, eq_status, Agent,
  Run,
}
use nastroyka_claude.Domain.Errors.{
  Error, Result, ok, err, no_agent_of_type, subtask_failed, thrown, message, status_text, type_text,
}
use nastroyka_claude.Domain.StateMachine.{transition, is_terminal}
use nastroyka_claude.Repo
use nastroyka_claude.Repo.{Patch}
use nastroyka_claude.Exec.{Exec, pure, throw, lift, gets, modify, try_catch, ◌>>=◌, ◌>>◌}
use nastroyka_claude.System.{
  System, nat_json, meta1, meta2, or_throw, find_run, require_run, write_audit, emit,
  orchestration_planned, orchestration_subtask, run_succeeded, set_status,
}
use nastroyka_claude.Runtime.Deps.{RuntimeDeps}
use nastroyka_claude.Runtime.Prompt.{to_prompt}
use nastroyka_claude.Runtime.Loop.{output_patch}
use nastroyka_claude.Runtime.{error_patch, enter_running, execute_run}
use nastroyka_claude.Planner.{OrchestrationSubtask, Plan, topo_sort}
use nastroyka_claude.Orchestrator.Complexity.{default_threshold, should_orchestrate}
use nastroyka_claude.Orchestrator.Report.{
  TeamContribution, Outputs, compose_prompt, build_team_report, verdict_needs_rework,
  revision_prompt, review_prompt,
}

-- `Number(process.env.DEBATE_ROUNDS)`: not a number, or a number, of which its floor is kept, 0 for a
-- negative one.
pub data RoundsSetting : Type 0 where
  not_a_number : RoundsSetting
  number : (floor : ℕ) → RoundsSetting

-- The planner is told how many model calls came before, for a planner that asks a model.
pub record OrchestratorDeps : Type 0 where
  pub runtime : RuntimeDeps
  pub plan : ℕ → Text → Result Plan
  pub complexity_threshold : Option ℕ
  pub default_agent_type : Option AgentType
  pub debate_rounds_env : Option RoundsSetting

abbrev or_default {ℓ} : {A : Type ℓ} → A → Option A → A
or_default d none = d
or_default d (some a) = a

-- The rounds of a loop up to Math.max(1, Math.min(5, setting)); no round is up to NaN.
abbrev rounds_of : RoundsSetting → ℕ
rounds_of not_a_number = 0
rounds_of (number floor) = max 1 (min 5 floor)

-- DEBATE_ROUNDS
unfoldable pub debate_rounds : OrchestratorDeps → ℕ
debate_rounds deps = rounds_of (or_default (number 2) deps.debate_rounds_env)

-- `${parentRunId}::${subtaskId}`
unfoldable pub child_id : Text → Text → Text
child_id parent subtask = parent ++ (text "::" ++ subtask)

pub record Work : Type 0 where
  pub outputs : Outputs
  pub contributions : List TeamContribution

abbrev opt_field : Text → Option Json → Fields → Fields
opt_field k none fs = fs
opt_field k (some v) fs = field k v fs

contribution_json : TeamContribution → Json
contribution_json c = obj (
    field (text "subtaskId") (str c.subtask_id) (
      field (text "agentType") (str (type_text c.agent_type))
        (field (text "agentName") (str c.agent_name) (opt_field (text "output") c.output end))))

contributions_json : List TeamContribution → Items
unfolding contribution_json
contributions_json [] = nil
contributions_json (c ∷ cs) = cons (contribution_json c) (contributions_json cs)

outputs_json : Outputs → Fields
outputs_json [] = end
outputs_json ((k, v) ∷ m) = opt_field k v (outputs_json m)

abbrev review_output : Option TeamContribution → Option Json
review_output none = none
review_output (some r) = r.output

aggregate : Option Json → List TeamContribution → Option TeamContribution → Outputs → Json
unfolding contributions_json outputs_json
aggregate summary contributions review outputs = obj (
    opt_field (text "summary") summary (
      field (text "report") (str (build_team_report contributions review)) (
        field (text "contributions") (arr (contributions_json contributions)) (
          opt_field (text "review") (review_output review)
            (field (text "subtasks") (obj (outputs_json outputs)) end)))))

plan_entries : Plan → Items
plan_entries [] = nil
plan_entries (s ∷ ss) =
    cons (meta2 (text "id") (str s.id) (text "agentType") (str (type_text s.agent_type)))
      (plan_entries ss)

child_input : (prompt parent subtask : Text) → Json
child_input prompt parent subtask = obj (
    field (text "prompt") (str prompt) (
      field (text "parentRunId") (str parent)
        (field (text "subtaskId") (str subtask) (field (text "stream") (bool true) end))))

-- The run of a subtask, before it is queued.
unfoldable pub child_run : (parent subtask org_id agent_id prompt : Text) → Run
unfolding child_input
child_run parent subtask org_id agent_id prompt = record {
  id = child_id parent subtask;
  org_id = org_id;
  agent_id = agent_id;
  status = queued;
  input = child_input prompt parent subtask;
  output = none;
  error = none;
  attempts = 0;
  parent_run_id = some parent;
}

-- repo.createRun: an existing run of the id is kept.
unfoldable pub add_run : Run → Exec System (Unit {0})
unfolding modify
add_run run = modify λ s. record s { repo = (Repo.create_run run s.repo).1 }

abbrev output_of : Option Run → Option Json
output_of none = none
output_of (some r) = r.output

abbrev has_succeeded : Option Run → Bool
has_succeeded none = false
has_succeeded (some r) = eq_status r.status succeeded

abbrev status_or_missing : Option Run → Text
status_or_missing none = text "missing"
status_or_missing (some r) = status_text r.status

module _ (deps : OrchestratorDeps) (parent_id org_id : Text) where
  unfoldable pub emit_subtask :
      (subtask : Text) → AgentType → (name status : Text) → Exec System (Unit {0})
  emit_subtask subtask type name status =
      emit deps.runtime.has_events orchestration_subtask parent_id org_id (
        obj (
          field (text "subtaskId") (str subtask) (
            field (text "agentType") (str (type_text type))
              (field (text "agentName") (str name) (field (text "status") (str status) end)))))

  unfoldable pub find_agent : AgentType → Exec System (Option Agent)
  find_agent type = gets (λ s. Repo.find_agent_by_type org_id type s.repo)

  -- The body of the loop over the subtasks in their order.
  unfoldable pub run_subtask : OrchestrationSubtask → Work → Exec System Work
  run_subtask subtask w = do
    found ← find_agent subtask.agent_type
    agent ← or_throw (no_agent_of_type subtask.agent_type org_id) found
    let child = child_id parent_id subtask.id
    add_run (child_run parent_id subtask.id org_id agent.id (compose_prompt subtask w.outputs))
    emit_subtask subtask.id subtask.agent_type agent.name (text "running")
    try_catch (execute_run deps.runtime child)
        (λ e. emit_subtask subtask.id subtask.agent_type agent.name (text "failed") >> throw e)
    stored ← find_run child
    if not (has_succeeded stored)
        then throw (subtask_failed subtask.id (status_or_missing stored))
        else (do
          emit_subtask subtask.id subtask.agent_type agent.name (text "succeeded")
          pure (record {
            outputs = Maps.set subtask.id (output_of stored) w.outputs;
            contributions =
                w.contributions
                ++ record {
                  subtask_id = subtask.id;
                  agent_type = subtask.agent_type;
                  agent_name = agent.name;
                  output = output_of stored;
                }
                  ∷ [];
          }))

  unfoldable pub run_subtasks : Plan → Work → Exec System Work
  run_subtasks [] w = pure w
  run_subtasks (s ∷ ss) w = do w' ← run_subtask s w; run_subtasks ss w'

  -- A review or revision child: a failure gives no contribution and is not passed on.
  unfoldable pub run_child_contribution :
      (subtask : Text) → Agent → (prompt : Text) → AgentType → Exec System (Option TeamContribution)
  run_child_contribution subtask agent prompt type = do
    let child = child_id parent_id subtask
    add_run (child_run parent_id subtask org_id agent.id prompt)
    emit_subtask subtask type agent.name (text "running")
    done ← try_catch (execute_run deps.runtime child >> pure true) (λ e. pure false)
    stored ← find_run child
    if not (done && has_succeeded stored) then pure none else (do
      emit_subtask subtask type agent.name (text "succeeded")
      pure (
          some (record {
            subtask_id = subtask;
            agent_type = type;
            agent_name = agent.name;
            output = output_of stored;
          })))

pub record Debate : Type 0 where
  pub summary : Option Json
  pub review : Option TeamContribution
  pub contributions : List TeamContribution

-- review, review2, review3, …
unfoldable pub review_id : ℕ → Text
review_id round = if round == 1 then text "review" else text "review" ++ decimal round

unfoldable pub revision_id : ℕ → Text
revision_id round = text "rev" ++ decimal round

module _ (deps : OrchestratorDeps) (parent_id org_id task : Text) (reviewer_agent : Agent)
    (synth_agent : Option Agent) (synth_type : AgentType) where
  -- `break` ends the debate with what it has; a revision goes on to the next round.
  unfoldable pub after_revision :
      (Debate → Exec System Debate) → Debate → Option TeamContribution → Exec System Debate
  after_revision next d none = pure d
  after_revision next d (some rev) =
      next (record d { summary = rev.output; contributions = d.contributions ++ rev ∷ [] })

  unfoldable pub revise :
      (Debate → Exec System Debate)
      → ℕ
      → Debate
      → TeamContribution
      → Option Agent
      → Exec System Debate
  revise next round d r none = pure d
  revise next round d r (some agent) = if not (verdict_needs_rework r.output) then pure d else (do
    rev ←
        run_child_contribution deps parent_id org_id (revision_id round) agent
          (revision_prompt task d.summary r.output) synth_type
    after_revision next d rev)

  unfoldable pub after_review :
      (Debate → Exec System Debate) → ℕ → Debate → Option TeamContribution → Exec System Debate
  after_review next round d none = pure d
  after_review next round d (some r) =
      revise next round (record d { review = some r }) r synth_agent

  unfoldable pub debate_from : (left round : ℕ) → Debate → Exec System Debate
  debate_from zero round d = pure d
  debate_from (suc left) round d = do
    r ←
        run_child_contribution deps parent_id org_id (review_id round) reviewer_agent
          (review_prompt task d.contributions) reviewer
    after_review (debate_from left (round + 1)) round d r

module _ (deps : OrchestratorDeps) (parent_id org_id task : Text) where
  abbrev names_reviewer : OrchestrationSubtask → Bool
  names_reviewer s = eq_type s.agent_type reviewer

  unfoldable pub debate_with :
      OrchestrationSubtask → Debate → (synth found : Option Agent) → Exec System Debate
  debate_with last d synth none = pure d
  debate_with last d synth (some agent) =
      debate_from deps parent_id org_id task agent synth last.agent_type (debate_rounds deps) 1 d

  -- A debate needs a planned team of more than one without a reviewer, and a reviewer in the org.
  unfoldable pub debate : Bool → Plan → OrchestrationSubtask → Debate → Exec System Debate
  debate orchestrated plan last d =
      if orchestrated && ltb 1 (length d.contributions) && not (any names_reviewer plan)
      then (do
        found ← find_agent deps parent_id org_id reviewer
        synth ← find_agent deps parent_id org_id last.agent_type
        debate_with last d synth found)
      else pure d

  abbrev single_plan : Plan
  single_plan =
      record {
        id = text "single";
        agent_type = or_default researcher deps.default_agent_type;
        prompt = task;
        depends_on = [];
      }
      ∷ []

  -- planner.plan; its errors lead to the plan for one agent.
  unfoldable pub ask_planner : Exec System Plan
  ask_planner s = (deps.plan s.model_calls task, record s { model_calls = s.model_calls + 1 })

  unfoldable pub choose_plan : Exec System (Bool × Plan)
  choose_plan =
      if should_orchestrate task (or_default default_threshold deps.complexity_threshold)
      then try_catch (do plan ← ask_planner; pure (true, plan))
          (λ e. do
            write_audit org_id parent_id (text "orchestrator") (text "orchestration.plan_fallback")
                (some (meta1 (text "error") (str (message e))))
            pure (false, single_plan))
      else pure (false, single_plan)

  -- order[order.length - 1] of an empty order is a TypeError.
  unfoldable pub last_of : Plan → Exec System OrchestrationSubtask
  last_of order =
      or_throw (thrown (text "Cannot read properties of undefined (reading 'id')")) (last? order)

  -- The run's output is the aggregate, and its end is announced.
  unfoldable pub conclude_with : Plan → Debate → Outputs → RunStatus → Exec System (Unit {0})
  unfolding aggregate
  conclude_with plan d outputs next = do
    set_status parent_id next (output_patch (aggregate d.summary d.contributions d.review outputs))
    write_audit org_id parent_id (text "orchestrator") (text "orchestration.succeeded")
        (some (meta1 (text "subtasks") (nat_json (length plan))))
    emit deps.runtime.has_events run_succeeded parent_id org_id
        (meta1 (text "subtasks") (nat_json (length plan)))

  unfoldable pub conclude : Plan → Debate → Outputs → Exec System (Unit {0})
  conclude plan d outputs = do
    next ← lift (transition running succeeded)
    conclude_with plan d outputs next

  abbrev output_for : Option (Option Json) → Option Json
  output_for none = none
  output_for (some o) = o

  unfoldable pub announce : Bool → Plan → Exec System (Unit {0})
  unfolding plan_entries
  announce orchestrated plan = do
    write_audit org_id parent_id (text "orchestrator")
        (if orchestrated then text "orchestration.planned" else text "orchestration.single_agent")
        (some (meta1 (text "subtasks") (arr (plan_entries plan))))
    emit deps.runtime.has_events orchestration_planned parent_id org_id (
        obj (
          field (text "orchestrated") (bool orchestrated)
            (field (text "subtasks") (arr (plan_entries plan)) end)))

  -- The body of the `try` block.
  unfoldable pub orchestrate : Exec System (Unit {0})
  orchestrate = do
    (orchestrated, plan) ← choose_plan
    announce orchestrated plan
    order ← lift (topo_sort plan)
    w ← run_subtasks deps parent_id org_id order (record { outputs = []; contributions = [] })
    last ← last_of order
    d ← debate orchestrated plan last (record {
      summary = output_for (Maps.get last.id w.outputs);
      review = none;
      contributions = w.contributions;
    })
    conclude plan d w.outputs

  unfoldable pub orchestration_failed : Error → Exec System (Unit {0})
  orchestration_failed e = do
    set_status parent_id running (error_patch (message e))
    write_audit org_id parent_id (text "orchestrator") (text "orchestration.attempt_failed")
        (some (meta1 (text "error") (str (message e))))
    throw e

unfoldable pub execute_orchestration : OrchestratorDeps → Text → Exec System (Unit {0})
execute_orchestration deps parent_id = do
  parent ← require_run parent_id
  if is_terminal parent.status
      then write_audit parent.org_id parent_id (text "orchestrator") (text "run.skipped_terminal")
          (some (meta1 (text "status") (str (status_text parent.status))))
      else (do
        enter_running deps.runtime parent_id parent.status
        try_catch (orchestrate deps parent_id parent.org_id (to_prompt parent.input))
            (orchestration_failed deps parent_id parent.org_id (to_prompt parent.input)))
