-- ===== src/Worker/Delivery.antt =====
-- agent-os/src/worker/worker.ts: the delivery of a run whose agent is not stored.
use nastroyka_claude.Base.{
  ℕ, suc, ◌+◌, ◌≤◌, ◌≡◌, refl, false, none, some, Text, arith, ltb, eq_text_refl,
}
use nastroyka_claude.Base.Maps
use nastroyka_claude.Base.Maps.{get-set}
use nastroyka_claude.Domain.Types.{RunStatus, queued, failed, Run}
use nastroyka_claude.Domain.Errors.{err, illegal_transition, agent_not_found, message}
use nastroyka_claude.Domain.StateMachine.{transition, can_transition}
use nastroyka_claude.Repo
use nastroyka_claude.Exec.{lift, throw, try_catch, ◌>>=◌}
use nastroyka_claude.System.{System, find_run, require_agent, or_throw}
use nastroyka_claude.System.Rules.{require_run-some}
use nastroyka_claude.Dispatch.{dispatch_run}
use nastroyka_claude.Worker.{
  WorkerDeps, count_delivery, bury, give_up, on_error, process_job, enqueue,
}
use nastroyka_claude.Worker.Attempts.{counted, increment_attempts_lem}

require_agent-none :
    (agent_id : Text) (s : System)
    → Maps.get agent_id s.repo.agents ≡ none
    → require_agent agent_id s ≡ (err (agent_not_found agent_id), s)
unfolding require_agent ◌>>=◌ or_throw throw
require_agent-none agent_id s e = rw e

dispatch_run_missing :
    (deps : WorkerDeps) (run_id : Text) (x : Run) (s : System)
    → Maps.get run_id s.repo.runs ≡ some x
    → Maps.get x.agent_id s.repo.agents ≡ none
    → dispatch_run deps.dispatch run_id s ≡ (err (agent_not_found x.agent_id), s)
unfolding dispatch_run ◌>>=◌
dispatch_run_missing deps run_id x s stored missing =
    rw (require_run-some run_id x s stored) (rw (require_agent-none x.agent_id s missing))

queued_fails :
    (status : RunStatus)
    → status ≡ queued
    → transition status failed ≡ err (illegal_transition queued failed)
unfolding transition can_transition
queued_fails status h = ground arith

bury_queued :
    (deps : WorkerDeps) (run_id : Text) (attempt : ℕ) (reason : Text) (x : Run) (s : System)
    → x.status ≡ queued
    → bury deps run_id attempt reason x s ≡ (err (illegal_transition queued failed), s)
unfolding bury ◌>>=◌ lift
bury_queued deps run_id attempt reason x s e = rw (queued_fails x.status e)

-- The last attempt of a stored 'queued' run whose agent is not stored throws an illegal transition
-- out of the delivery: the run stays 'queued' with the attempt counted, and no dead letter is
-- recorded.
pub enqueue_agent_missing :
    (deps : WorkerDeps) (run_id : Text) (x : Run) (fuel : ℕ) (s : System)
    → Repo.get_run run_id s.repo ≡ some x
    → Repo.get_agent x.agent_id s.repo ≡ none
    → x.status ≡ queued
    → deps.max_attempts ≤ x.attempts + 1
    → let (r, t) = enqueue deps run_id (suc fuel) s in
      (r ≡ err (illegal_transition queued failed))
      × (Repo.get_run run_id t.repo ≡ some (record x { attempts = x.attempts + 1 }))
      × (t.repo.dead_letters ≡ s.repo.dead_letters)
unfolding enqueue process_job count_delivery try_catch on_error find_run give_up Repo.get_run
    Repo.get_agent ◌>>=◌
enqueue_agent_missing deps run_id x fuel s stored missing waiting last =
    let again : Maps.get run_id (Maps.set run_id (counted x) s.repo.runs) ≡ some (counted x) =
      ground (arith, get-set run_id run_id (counted x) s.repo.runs, eq_text_refl run_id) in
    let exhausted : ltb (x.attempts + 1) deps.max_attempts ≡ false = ground arith in
    let t : System = record (count_delivery run_id s).1 {
      repo = record s.repo { runs = Maps.set run_id (counted x) s.repo.runs };
    } in
    rw (increment_attempts_lem run_id x (count_delivery run_id s).1 stored) (
      rw (dispatch_run_missing deps run_id (counted x) t again missing) (
        rw exhausted (
          rw again (
            rw
              (bury_queued deps run_id (x.attempts + 1) (message (agent_not_found x.agent_id))
                (counted x) t waiting)
              (refl, again, refl)))))
