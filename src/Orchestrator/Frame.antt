-- ===== src/Orchestrator/Frame.antt =====
-- agent-os/src/orchestrator/orchestrator.ts: the runs that an orchestration writes before it
-- concludes.
use nastroyka_claude.Base.{
  ℕ, zero, suc, ◌+◌, ◌≡◌, ◌≢◌, ap, Bool, false, Option, none, some, [], ◌∷◌, ◌++◌, Text, text,
  arith, length, length-append, eq_text, eq_text_iff, Map, inl, inr, Option-cases,
}
use nastroyka_claude.Base.Maps
use nastroyka_claude.Domain.Types.{AgentType, Agent, Run}
use nastroyka_claude.Repo
use nastroyka_claude.Exec.{Exec}
use nastroyka_claude.Exec.Keeps.{Keeps, Keeps-bind}
use nastroyka_claude.System.{System}
use nastroyka_claude.System.Rules.{OnRuns, Ignores, on_runs_rules}
use nastroyka_claude.Runtime.Frame.{execute_run-OnRuns}
use nastroyka_claude.Planner.{OrchestrationSubtask, Plan}
use nastroyka_claude.Orchestrator.Report.{TeamContribution}
use nastroyka_claude.Orchestrator.{
  OrchestratorDeps, Work, Debate, child_id, child_run, add_run, emit_subtask, find_agent,
  run_subtask, run_subtasks, run_child_contribution, after_revision, revise, after_review,
  debate_with, debate_from, debate, ask_planner, choose_plan, last_of, announce,
}

child_id-ne : (parent subtask : Text) → child_id parent subtask ≢ parent
unfolding child_id
child_id-ne parent subtask e =
    omega (arith, ap length e, length-append parent (text "::" ++ subtask))

-- A child's id is never its parent's.
pub child_id-other : (parent subtask : Text) → eq_text (child_id parent subtask) parent ≡ false
child_id-other parent subtask =
    ground (arith, child_id-ne parent subtask, eq_text_iff (child_id parent subtask) parent)

module _ {J : Map Run → Map Agent → Type 0} where
  create_run-keeps :
      (run : Run) (r : Repo.Repo)
      → Ignores J run.id
      → J r.runs r.agents
      → J (Repo.create_run run r).1.runs (Repo.create_run run r).1.agents
  unfolding Repo.create_run
  create_run-keeps run r other h = elim (Option-cases (Maps.get run.id r.runs)) [
    | inl e ↦ rw (e, Repo.create_run) (other run r.runs r.agents h)
    | inr (x, e) ↦ rw (e, Repo.create_run) h
  ]

  add_run-OnRuns : (run : Run) → Ignores J run.id → Keeps (OnRuns J) (add_run run)
  unfolding add_run
  add_run-OnRuns run other = record {
    at = λ s h. record { runs = create_run-keeps run s.repo other h.runs };
  }

module _ (deps : OrchestratorDeps) (parent_id org_id : Text) (J : Map Run → Map Agent → Type 0)
    (other : (subtask : Text) → Ignores J (child_id parent_id subtask)) where
  add_child-OnRuns :
      (subtask org agent_id prompt : Text)
      → Keeps (OnRuns J) (add_run (child_run parent_id subtask org agent_id prompt))
  unfolding child_run
  add_child-OnRuns subtask org agent_id prompt = add_run-OnRuns _ (other subtask)

  emit_subtask-OnRuns :
      (subtask : Text) (type : AgentType) (name status : Text)
      → Keeps (OnRuns J) (emit_subtask deps parent_id org_id subtask type name status)
  unfolding emit_subtask
  emit_subtask-OnRuns subtask type name status = search on_runs_rules

  find_agent-OnRuns : (type : AgentType) → Keeps (OnRuns J) (find_agent deps parent_id org_id type)
  unfolding find_agent
  find_agent-OnRuns type = search on_runs_rules

  execute_child-OnRuns :
      (subtask : Text)
      → Keeps
          (OnRuns J)
          (nastroyka_claude.Runtime.execute_run deps.runtime (child_id parent_id subtask))
  execute_child-OnRuns subtask = execute_run-OnRuns deps.runtime _ J (other subtask)

  run_subtask-OnRuns :
      (s : OrchestrationSubtask) (w : Work)
      → Keeps (OnRuns J) (run_subtask deps parent_id org_id s w)
  unfolding run_subtask
  run_subtask-OnRuns s w =
      search
        (
          on_runs_rules, add_child-OnRuns, emit_subtask-OnRuns, find_agent-OnRuns,
          execute_child-OnRuns,
        )
        depth 20

  pub run_subtasks-OnRuns :
      (plan : Plan) (w : Work) → Keeps (OnRuns J) (run_subtasks deps parent_id org_id plan w)
  unfolding run_subtasks
  run_subtasks-OnRuns [] w = search on_runs_rules
  run_subtasks-OnRuns (s ∷ ss) w =
      search (on_runs_rules, run_subtask-OnRuns, λ (v : Work). run_subtasks-OnRuns ss v)

  contribution-OnRuns :
      (subtask : Text) (agent : Agent) (prompt : Text) (type : AgentType)
      → Keeps (OnRuns J) (run_child_contribution deps parent_id org_id subtask agent prompt type)
  unfolding run_child_contribution
  contribution-OnRuns subtask agent prompt type =
      search (on_runs_rules, add_child-OnRuns, emit_subtask-OnRuns, execute_child-OnRuns) depth 20

  module _ (task : Text) (reviewer_agent : Agent) (synth : Option Agent) (type : AgentType) where
    after_revision-OnRuns :
        (next : Debate → Exec System Debate)
        → ((d : Debate) → Keeps (OnRuns J) (next d))
        → (d : Debate) (o : Option TeamContribution)
        → Keeps
            (OnRuns J)
            (after_revision deps parent_id org_id task reviewer_agent synth type next d o)
    unfolding after_revision
    after_revision-OnRuns next h d none = search on_runs_rules
    after_revision-OnRuns next h d (some r) = h _

    revise-OnRuns :
        (next : Debate → Exec System Debate)
        → ((d : Debate) → Keeps (OnRuns J) (next d))
        → (round : ℕ) (d : Debate) (r : TeamContribution) (agent : Option Agent)
        → Keeps
            (OnRuns J)
            (revise deps parent_id org_id task reviewer_agent synth type next round d r agent)
    unfolding revise
    revise-OnRuns next h round d r none = search on_runs_rules
    revise-OnRuns next h round d r (some agent) =
        search (on_runs_rules, contribution-OnRuns, after_revision-OnRuns next h) depth 8

    after_review-OnRuns :
        (next : Debate → Exec System Debate)
        → ((d : Debate) → Keeps (OnRuns J) (next d))
        → (round : ℕ) (d : Debate) (o : Option TeamContribution)
        → Keeps
            (OnRuns J)
            (after_review deps parent_id org_id task reviewer_agent synth type next round d o)
    unfolding after_review
    after_review-OnRuns next h round d none = search on_runs_rules
    after_review-OnRuns next h round d (some r) = revise-OnRuns next h round _ r synth

    debate_from-OnRuns :
        (left round : ℕ) (d : Debate)
        → Keeps
            (OnRuns J)
            (debate_from deps parent_id org_id task reviewer_agent synth type left round d)
    unfolding debate_from
    debate_from-OnRuns zero round d = search on_runs_rules
    debate_from-OnRuns (suc left) round d =
        Keeps-bind (contribution-OnRuns _ _ _ _)
          (after_review-OnRuns _ (debate_from-OnRuns left (round + 1)) round d)

  module _ (task : Text) where
    debate-found :
        (plan : Plan) (last : OrchestrationSubtask) (d : Debate) (synth found : Option Agent)
        → Keeps (OnRuns J) (debate_with deps parent_id org_id task last d synth found)
    unfolding debate_with
    debate-found plan last d synth none = search on_runs_rules
    debate-found plan last d synth (some agent) = debate_from-OnRuns task agent synth _ _ 1 d

    pub debate-OnRuns :
        (orchestrated : Bool) (plan : Plan) (last : OrchestrationSubtask) (d : Debate)
        → Keeps (OnRuns J) (debate deps parent_id org_id task orchestrated plan last d)
    unfolding debate
    debate-OnRuns orchestrated plan last d =
        search (on_runs_rules, find_agent-OnRuns, debate-found plan last d) depth 10

    ask_planner-OnRuns : Keeps (OnRuns J) (ask_planner deps parent_id org_id task)
    unfolding ask_planner
    ask_planner-OnRuns = record { at = λ s h. record { runs = h.runs } }

    pub choose_plan-OnRuns : Keeps (OnRuns J) (choose_plan deps parent_id org_id task)
    unfolding choose_plan
    choose_plan-OnRuns = search (on_runs_rules, ask_planner-OnRuns) depth 10

    pub last_of-OnRuns :
        (order : Plan) → Keeps (OnRuns J) (last_of deps parent_id org_id task order)
    unfolding last_of
    last_of-OnRuns order = search on_runs_rules

    pub announce-OnRuns :
        (orchestrated : Bool) (plan : Plan)
        → Keeps (OnRuns J) (announce deps parent_id org_id task orchestrated plan)
    unfolding announce
    announce-OnRuns orchestrated plan = search on_runs_rules
