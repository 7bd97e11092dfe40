-- ===== src/Worker/Burial.antt =====
-- agent-os/src/worker/worker.ts: the end of a delivery, a retry or a dead letter.
use nastroyka_claude.Base.{
  ap, ℕ, ◌≤◌, ◌≡◌, refl, ◌⊎◌, inl, inr, ◌∙◌, Bool, true, false, not, ◌&&◌, Option, some, List, [],
  ◌∷◌, ◌++◌, Text, arith, last?, last?-append, Bool-cases,
}
use nastroyka_claude.Base.Maps
use nastroyka_claude.Base.Maps.{get-set}
use nastroyka_claude.Domain.Types.{
  RunStatus, running, succeeded, failed, orchestrator, eq_type, Agent, Run, DeadLetterRecord,
}
use nastroyka_claude.Domain.Errors.{Result, ok}
use nastroyka_claude.Domain.StateMachine.{transition, can_transition, is_terminal}
use nastroyka_claude.Repo
use nastroyka_claude.Exec.{◌>>=◌}
use nastroyka_claude.Exec.Triple.{Triple, Ends, Ends-mono, bind, lift_rule, eq_rule, modify_rule}
use nastroyka_claude.Runtime.{execute_run, error_patch}
use nastroyka_claude.Domain.Json.{Json}
use nastroyka_claude.Repo.{patch_run}
use nastroyka_claude.System.{RunEventType, System, write_audit, emit}
use nastroyka_claude.System.Rules.{set_status-At, OnRuns, At, require_run-some, require_agent-some}
use nastroyka_claude.Runtime.Prompt.{is_personal_chat}
use nastroyka_claude.Runtime.Outcome.{Found, Running, Answered, execute_run-Ends}
use nastroyka_claude.Orchestrator.{OrchestratorDeps}
use nastroyka_claude.Orchestrator.Outcome.{Succeeded, execute_orchestration-Ends}
use nastroyka_claude.Dispatch.{DispatchDeps, route, dispatch_run}
use nastroyka_claude.Worker.{record_failure, WorkerDeps, add_dead_letter, bury}

Answered→Succeeded :
    (run_id : Text) (x : Found) (s : System) → Answered run_id x s → Succeeded run_id x s
Answered→Succeeded run_id x s h = record {
  runs = (h.runs.0, h.runs.1, record { same = h.runs.2.same; has_status = h.runs.2.status });
}

-- A dispatched run, of a stored agent and with a planner at hand, succeeds or is left 'running'.
pub dispatch_run-Ends :
    (deps : DispatchDeps) (planner : OrchestratorDeps) (run_id : Text) (x : Run) (agent : Agent)
    (s : System)
    → deps.orchestration ≡ some planner
    → Maps.get run_id s.repo.runs ≡ some x
    → Maps.get x.agent_id s.repo.agents ≡ some agent
    → is_terminal x.status ≡ false
    → let found : Found = record { run = x; agents = s.repo.agents } in
      Ends (λ _. Succeeded run_id found) (λ _. Running run_id found) (dispatch_run deps run_id s)
unfolding dispatch_run route ◌>>=◌ Repo.get_run Repo.get_agent
dispatch_run-Ends deps planner run_id x agent s planned found known alive =
    rw (require_run-some run_id x s found) (
      rw (require_agent-some x.agent_id agent s known)
        (elim (Bool-cases (eq_type agent.type orchestrator && not (is_personal_chat x.input))) [
          | inl e ↦ rw e (rw planned (execute_orchestration-Ends planner run_id x s found alive))
          | inr e ↦ rw e (
              Ends-mono (λ _. Answered run_id _) (λ _. Succeeded run_id _) (λ _. Running run_id _)
                (λ _. Running run_id _) (execute_run deps.runtime run_id s)
                (λ _. Answered→Succeeded run_id _) (λ _ _ h. h)
                (execute_run-Ends deps.runtime run_id x agent s found known alive))
        ]))

abbrev letter_of : Text → ℕ → Text → DeadLetterRecord
letter_of run_id attempts reason = record {
  run_id = run_id;
  payload = run_id;
  failure_reason = reason;
  attempts = attempts;
}

-- The dead letter that belongs to a failed run is the last one recorded.
pub record IsBuried (limit : ℕ) (run_id : Text) (y : Run) (letters : List DeadLetterRecord)
    : Type 0 where
  pub status : y.status ≡ failed
  pub exhausted : limit ≤ y.attempts
  pub letter : DeadLetterRecord
  pub recorded : last? letters ≡ some letter
  pub letter_run : letter.run_id ≡ run_id
  pub letter_attempts : letter.attempts ≡ y.attempts
  pub letter_reason : y.error ≡ some letter.failure_reason

pub record IsSettled (limit : ℕ) (run_id : Text) (s : System) : Type 0 where
  pub run : Run
  pub stored : Maps.get run_id s.repo.runs ≡ some run
  pub settled : (run.status ≡ succeeded) ⊎ IsBuried limit run_id run s.repo.dead_letters

abbrev pub Settles : ℕ → Text → Result (Unit {0}) × System → Type 0
Settles limit run_id = Ends (λ _. IsSettled limit run_id) (λ _ _. ⊥)

running_fails : (status : RunStatus) → status ≡ running → transition status failed ≡ ok failed
unfolding transition can_transition
running_fails status h = ground arith

module _ (limit : ℕ) (j : Text) where
  abbrev pub Settled : (Unit {0}) → System → Type 0
  Settled _ = IsSettled limit j

  audit-Settled :
      (org_id run_id actor action : Text) (meta : Option Json)
      → Triple (IsSettled limit j) (write_audit org_id run_id actor action meta) Settled (λ _ _. ⊥)
  unfolding write_audit
  audit-Settled org_id run_id actor action meta =
      modify_rule _ (λ s h. record { run = h.run; stored = h.stored; settled = h.settled })

  emit-Settled :
      (on : Bool) (type : RunEventType) (run_id org_id : Text) (value : Json)
      → Triple (IsSettled limit j) (emit on type run_id org_id value) Settled (λ _ _. ⊥)
  unfolding emit
  emit-Settled true type run_id org_id value =
      modify_rule _ (λ s h. record { run = h.run; stored = h.stored; settled = h.settled })
  emit-Settled false type run_id org_id value = modify_rule _ (λ s h. h)

module _ (deps : WorkerDeps) (run_id : Text) where
  abbrev Stores : Run → System → Type 0
  Stores y = OnRuns (At run_id (λ z g. z ≡ y))

  record_failure-settles :
      (reason : Text) (y : Run)
      → deps.max_attempts ≤ y.attempts
      → Triple
          (Stores y)
          (record_failure deps run_id y.attempts reason y failed)
          (Settled deps.max_attempts run_id)
          (λ _ _. ⊥)
  unfolding record_failure add_dead_letter Repo.record_dead_letter
  record_failure-settles reason y spent =
      bind
        (set_status-At run_id (λ z g. z ≡ y) (λ z g. z ≡ patch_run y (error_patch reason) failed)
          failed (error_patch reason)
          (λ z g e. ap (λ w. patch_run w (error_patch reason) failed) e))
        λ _. bind (modify_rule {Q = Settled deps.max_attempts run_id} _ with_letter) λ _.
          bind (audit-Settled _ _ _ _ _ _ _)
            λ _. bind (emit-Settled _ _ _ _ _ _ _) λ _. emit-Settled _ _ _ _ _ _ _
    where
      with_letter :
          (s : System)
          → Stores (patch_run y (error_patch reason) failed) s
          → IsSettled deps.max_attempts run_id (record s {
            repo = record s.repo {
              dead_letters = s.repo.dead_letters ++ letter_of run_id y.attempts reason ∷ [];
            };
          })
      with_letter s h = record {
        run = patch_run y (error_patch reason) failed;
        stored = h.runs.1 ∙ ap some h.runs.2;
        settled = inr (record {
          status = refl;
          exhausted = spent;
          letter = letter_of run_id y.attempts reason;
          recorded = last?-append s.repo.dead_letters _;
          letter_run = refl;
          letter_attempts = refl;
          letter_reason = refl;
        });
      }

  pub bury-settles :
      (reason : Text) (y : Run)
      → y.status ≡ running
      → deps.max_attempts ≤ y.attempts
      → Triple
          (Stores y)
          (bury deps run_id y.attempts reason y)
          (Settled deps.max_attempts run_id)
          (λ _ _. ⊥)
  unfolding bury
  bury-settles reason y live spent =
      bind
        (lift_rule {Q = λ next s. (next ≡ failed) × Stores y s} (transition y.status failed)
          (λ s h. rw (running_fails y.status live) (refl, h)))
        λ next.
          eq_rule (record_failure deps run_id y.attempts reason y) next failed
            (record_failure-settles reason y spent)
