-- ===== src/Control/Requeue.antt =====
-- agent-os/src/api/controlPlane.ts, requeueDeadLetter: the reopening of a failed run.
use nastroyka_claude.Base.{ℕ, suc, ◌≡◌, refl, none, some, Text, text, arith, eq_text_refl}
use nastroyka_claude.Base.Maps
use nastroyka_claude.Base.Maps.{get-set}
use nastroyka_claude.Domain.Types.{queued, failed, Agent, Run}
use nastroyka_claude.Domain.Errors.{Result, ok, err}
use nastroyka_claude.Domain.StateMachine.{is_terminal}
use nastroyka_claude.Repo
use nastroyka_claude.Repo.{patch_run}
use nastroyka_claude.Exec.{pure, continue, ◌>>=◌}
use nastroyka_claude.System.{System, find_run, set_status, write_audit, or_throw}
use nastroyka_claude.Orchestrator.{OrchestratorDeps}
use nastroyka_claude.Worker.{WorkerDeps, enqueue, reset_deliveries}
use nastroyka_claude.Worker.Attempts.{enqueue_settles}
use nastroyka_claude.Worker.Burial.{IsSettled}
use nastroyka_claude.Control.{
  requeue_dead_letter, require_known_run, refuse_if, reopen, reopened, deliver, forget_dead_letter,
}

abbrev delivered : Result (Unit {0}) × System → Text → Result Text × System
delivered r run_id = continue r (λ _. pure run_id)

-- The state in which a reopened run is delivered.
abbrev reopened_state : Text → Run → System → System
reopened_state run_id x s =
    (write_audit x.org_id run_id (text "control-plane") (text "run.requeued") none
      (forget_dead_letter run_id (record (reset_deliveries run_id s).1 {
        repo = record s.repo { runs = Maps.set run_id (patch_run x reopened queued) s.repo.runs };
      })).1).1

reopen_lem :
    (deps : WorkerDeps) (run_id : Text) (x : Run) (s : System)
    → Maps.get run_id s.repo.runs ≡ some x
    → reopen deps run_id x s ≡ delivered (deliver deps run_id (reopened_state run_id x s)) run_id
unfolding reopen ◌>>=◌ set_status Repo.update_run_status reset_deliveries deliver forget_dead_letter
    write_audit Maps.get enqueue
reopen_lem deps run_id x s stored = rw stored refl

requeue_opens :
    (deps : WorkerDeps) (run_id : Text) (x : Run) (s : System)
    → Maps.get run_id s.repo.runs ≡ some x
    → x.status ≡ failed
    → requeue_dead_letter deps run_id s ≡ reopen deps run_id x s
unfolding requeue_dead_letter require_known_run find_run Repo.get_run or_throw refuse_if ◌>>=◌
requeue_opens deps run_id x s stored e = rw stored (rw e refl)

returns :
    (limit : ℕ) (run_id : Text) (r : Result (Unit {0}) × System)
    → (r.0 ≡ ok tt) × IsSettled limit run_id r.1
    → ((delivered r run_id).0 ≡ ok run_id) × IsSettled limit run_id (delivered r run_id).1
unfolding pure
returns limit run_id (ok u, t) h = (refl, h.1)
returns limit run_id (err e, t) h = cc

-- With a planner configured, requeueing a stored 'failed' run whose agent is stored resets its
-- attempts and delivers it again:
-- the call returns the run's id, and the run is settled, succeeded or failed anew with its attempts
-- used up and its dead letter recorded. This holds whatever the model, the tools, the planner, the
-- memory store and the masker do.
pub requeue_settles :
    (deps : WorkerDeps) (planner : OrchestratorDeps) (run_id : Text) (x : Run) (agent : Agent)
    (s : System)
    → deps.dispatch.orchestration ≡ some planner
    → Repo.get_run run_id s.repo ≡ some x
    → Repo.get_agent x.agent_id s.repo ≡ some agent
    → x.status ≡ failed
    → ((requeue_dead_letter deps run_id s).0 ≡ ok run_id)
      × IsSettled deps.max_attempts run_id (requeue_dead_letter deps run_id s).1
unfolding Repo.get_run Repo.get_agent Repo.mark_dead_letter_requeued
requeue_settles deps planner run_id x agent s planned stored known dead =
    rw (requeue_opens deps run_id x s stored dead) (
      rw (reopen_lem deps run_id x s stored) (
        returns deps.max_attempts run_id (deliver deps run_id (reopened_state run_id x s)) (
          unfold deliver write_audit forget_dead_letter reset_deliveries is_terminal in
          enqueue_settles deps planner run_id (patch_run x reopened queued) agent
            (suc deps.max_attempts) (reopened_state run_id x s) planned again known refl
            (omega arith) (omega arith))))
  where
    again :
        Maps.get run_id (Maps.set run_id (patch_run x reopened queued) s.repo.runs)
        ≡ some (patch_run x reopened queued)
    again = ground (
      arith,
      get-set run_id run_id (patch_run x reopened queued) s.repo.runs,
      eq_text_refl run_id,
    )
