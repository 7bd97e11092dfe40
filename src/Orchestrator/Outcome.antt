-- ===== src/Orchestrator/Outcome.antt =====
-- agent-os/src/orchestrator/orchestrator.ts: the ends of an orchestration.
use nastroyka_claude.Base.{◌≡◌, refl, false, some, Text, arith}
use nastroyka_claude.Domain.Types.{running, succeeded, Run}
use nastroyka_claude.Domain.Errors.{Error, message}
use nastroyka_claude.Domain.StateMachine.{transition, can_transition, is_terminal}
use nastroyka_claude.Repo
use nastroyka_claude.Repo.{patch_run}
use nastroyka_claude.Exec.{Exec, lift, ◌>>=◌}
use nastroyka_claude.Exec.Keeps.{Keeps}
use nastroyka_claude.Exec.Triple.{
  Triple, Ends, bind, throw_rule, lift_rule, try_rule, weaken, eq_rule, then_keeps, Keeps→Triple,
}
use nastroyka_claude.System.{System}
use nastroyka_claude.System.Rules.{
  OnRuns, At, Ignores, At-Ignores, on_runs_rules, set_status-At, require_run-some,
}
use nastroyka_claude.Runtime.{error_patch, start}
use nastroyka_claude.Runtime.Outcome.{
  Found, SameTask, HasStatus, SameTask→HasStatus, Running, Kept, Running→Kept, enter_running-ends,
}
use nastroyka_claude.Planner.{Plan}
use nastroyka_claude.Orchestrator.Frame.{
  child_id-other, run_subtasks-OnRuns, debate-OnRuns, choose_plan-OnRuns, last_of-OnRuns,
  announce-OnRuns,
}
use nastroyka_claude.Orchestrator.Report.{Outputs}
use nastroyka_claude.Runtime.Loop.{output_patch}
use nastroyka_claude.Orchestrator.{
  aggregate, OrchestratorDeps, Debate, child_id, conclude, conclude_with, orchestrate,
  orchestration_failed, execute_orchestration,
}

abbrev pub Succeeded : Text → Found → System → Type 0
Succeeded run_id x = OnRuns (At run_id (HasStatus succeeded x))

module _ (deps : OrchestratorDeps) (parent_id org_id task : Text) (x : Found) where
  children_other :
      (subtask : Text) → Ignores (At parent_id (HasStatus running x)) (child_id parent_id subtask)
  children_other subtask = At-Ignores _ parent_id _ (child_id-other parent_id subtask)

  -- A step that keeps the parent running, before one that may end the orchestration.
  Keeps-then :
      {A B : Type 0} {m : Exec System A} {f : A → Exec System B} {Q : B → System → Type 0}
      → Keeps (Running parent_id x) m
      → ((a : A) → Triple (Running parent_id x) (f a) Q (λ _. Kept parent_id x))
      → Triple (Running parent_id x) (m >>= f) Q (λ _. Kept parent_id x)
  Keeps-then hm hf =
      bind (weaken (λ s h. h) (Keeps→Triple hm) (λ _ s h. h) (λ _. Running→Kept parent_id x)) hf

  conclude_with-ends :
      (plan : Plan) (d : Debate) (outputs : Outputs)
      → Triple
          (Running parent_id x)
          (conclude_with deps parent_id org_id task plan d outputs succeeded)
          (λ _. Succeeded parent_id x)
          (λ _. Kept parent_id x)
  unfolding conclude_with
  conclude_with-ends plan d outputs =
      then_keeps
        (weaken (Running→Kept parent_id x)
          (set_status-At parent_id (SameTask x) (HasStatus succeeded x) succeeded _ (λ y g h.
            SameTask→HasStatus x
              (output_patch (aggregate d.summary d.contributions d.review outputs)) succeeded refl y
              g h))
          (λ _ s h. h) (λ e s h. absurd h))
        (search on_runs_rules) (λ _ s h. h)
        (λ e s h. record { runs = (h.runs.0, h.runs.1, h.runs.2.same) })

  conclude-ends :
      (plan : Plan) (d : Debate) (outputs : Outputs)
      → Triple
          (Running parent_id x)
          (conclude deps parent_id org_id task plan d outputs)
          (λ _. Succeeded parent_id x)
          (λ _. Kept parent_id x)
  unfolding conclude
  conclude-ends plan d outputs =
      bind
        (lift_rule {Q = λ next s. (next ≡ succeeded) × Running parent_id x s}
          (transition running succeeded) (unfold transition can_transition in λ s h. (refl, h)))
        λ next.
          eq_rule (conclude_with deps parent_id org_id task plan d outputs) next succeeded
            (conclude_with-ends plan d outputs)

  orchestrate-ends :
      Triple
        (Running parent_id x)
        (orchestrate deps parent_id org_id task)
        (λ _. Succeeded parent_id x)
        (λ _. Kept parent_id x)
  unfolding orchestrate
  orchestrate-ends =
      Keeps-then (choose_plan-OnRuns deps parent_id org_id _ children_other task) λ c.
        Keeps-then (announce-OnRuns deps parent_id org_id _ children_other task c.0 c.1) λ _.
          Keeps-then (search on_runs_rules) λ order.
            Keeps-then (run_subtasks-OnRuns deps parent_id org_id _ children_other order _) λ w.
              Keeps-then (last_of-OnRuns deps parent_id org_id _ children_other task order) λ last.
                Keeps-then
                  (debate-OnRuns deps parent_id org_id _ children_other task c.0 c.1 last _)
                  λ d. conclude-ends c.1 d w.outputs

  orchestration_failed-ends :
      (e : Error)
      → Triple
          (Kept parent_id x)
          (orchestration_failed deps parent_id org_id task e)
          (λ _. Succeeded parent_id x)
          (λ _. Running parent_id x)
  unfolding orchestration_failed
  orchestration_failed-ends e =
      bind
        (weaken (λ s h. h)
          (set_status-At parent_id (SameTask x) (HasStatus running x) running _
            (SameTask→HasStatus x (error_patch (message e)) running refl))
          (λ _ s h. h) (λ e s h. absurd h))
        λ _.
          bind (weaken (λ s h. h) (Keeps→Triple (search on_runs_rules)) (λ _ s h. h) (λ _ s h. h))
            (λ _. throw_rule e (λ s h. h))

-- An orchestration of a stored run that is not in a terminal state returns only with the run
-- succeeded; if it throws, the run is 'running', for the worker to retry or to fail. The rest of the
-- run, its attempts included, and the agents are as they were. This holds whatever the planner, the
-- children and the reviewer do.
pub execute_orchestration-Ends :
    (deps : OrchestratorDeps) (run_id : Text) (x : Run) (s : System)
    → Repo.get_run run_id s.repo ≡ some x
    → is_terminal x.status ≡ false
    → let found : Found = record { run = x; agents = s.repo.agents } in
      Ends
        (λ _. Succeeded run_id found)
        (λ _. Running run_id found)
        (execute_orchestration deps run_id s)
unfolding execute_orchestration ◌>>=◌ Repo.get_run
execute_orchestration-Ends deps run_id x s found alive = rw (require_run-some run_id x s found) (
    rw alive (
      ends.run s (record { runs = (x, found, record { same = ground arith; has_status = refl }) })))
  where
    here : Found
    here = record { run = x; agents = s.repo.agents }

    ends :
        Triple
          (OnRuns (At run_id (HasStatus x.status here)))
          (nastroyka_claude.Runtime.enter_running deps.runtime run_id x.status >>= λ _.
            nastroyka_claude.Exec.try_catch
              (orchestrate deps run_id x.org_id (nastroyka_claude.Runtime.Prompt.to_prompt x.input))
              (orchestration_failed deps run_id x.org_id
                (nastroyka_claude.Runtime.Prompt.to_prompt x.input)))
          (λ _. Succeeded run_id here)
          (λ _. Running run_id here)
    ends =
        bind
          (weaken (λ s h. h) (enter_running-ends deps.runtime run_id here x.status alive)
            (λ _ s h. h) (λ e s h. absurd h))
          λ _.
            try_rule (orchestrate-ends deps run_id x.org_id _ here)
              (orchestration_failed-ends deps run_id x.org_id _ here)
