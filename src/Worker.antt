-- ===== src/Worker.antt =====
-- agent-os/src/worker/worker.ts on the in-memory queue of agent-os/src/adapters/queue.inMemory.ts:
-- `enqueue` calls the processor at once and waits for it, so a retry is a nested delivery.
pub mod Attempts
pub mod Burial
pub mod Delivery
use nastroyka_claude.Base.{
  ℕ, zero, suc, ◌+◌, Bool, true, false, Option, none, some, List, [], ◌∷◌, ltb, Text, text, Map,
  if◌then◌else◌,
}
use nastroyka_claude.Base.Maps
use nastroyka_claude.Domain.Json.{str}
use nastroyka_claude.Domain.Types.{RunStatus, failed, Run}
use nastroyka_claude.Domain.Errors.{Error, Result, ok, err, thrown, message}
use nastroyka_claude.Domain.StateMachine.{transition}
use nastroyka_claude.Repo
use nastroyka_claude.Exec.{Exec, pure, throw, lift, gets, modify, try_catch, ◌>>=◌, ◌>>◌}
use nastroyka_claude.System.{
  System, nat_json, meta1, meta2, find_run, write_audit, emit, run_failed, run_dead_lettered,
  set_status,
}
use nastroyka_claude.Runtime.{error_patch}
use nastroyka_claude.Dispatch.{DispatchDeps, dispatch_run}

pub record WorkerDeps : Type 0 where
  pub dispatch : DispatchDeps
  pub max_attempts : ℕ

abbrev after_increment : System → Result (ℕ × Repo.Repo) → Result ℕ × System
after_increment s (ok (n, r)) = (ok n, record s { repo = r })
after_increment s (err e) = (err e, s)

-- repo.incrementRunAttempts
unfoldable pub increment_attempts : Text → Exec System ℕ
unfolding Repo.increment_run_attempts
increment_attempts run_id s = after_increment s (Repo.increment_run_attempts run_id s.repo)

abbrev org_or_unknown : Option Run → Text
org_or_unknown none = text "unknown"
org_or_unknown (some r) = r.org_id

abbrev delivered : Option ℕ → ℕ
delivered none = 0
delivered (some n) = n

-- The queue's own count of the deliveries of a run.
unfoldable pub count_delivery : Text → Exec System (Unit {0})
unfolding modify
count_delivery run_id = modify λ s. record s {
  deliveries = Maps.set run_id (delivered (Maps.get run_id s.deliveries) + 1) s.deliveries;
}

-- InMemoryQueue.reset
unfoldable pub reset_deliveries : Text → Exec System (Unit {0})
unfolding modify
reset_deliveries run_id = modify λ s. record s { deliveries = Maps.delete run_id s.deliveries }

module _ (deps : WorkerDeps) (run_id : Text) where
  unfoldable pub add_dead_letter : ℕ → Text → Exec System (Unit {0})
  add_dead_letter attempt reason = modify λ s. record s {
    repo =
        Repo.record_dead_letter
          (record {
            run_id = run_id;
            payload = run_id;
            failure_reason = reason;
            attempts = attempt;
          })
          s.repo;
  }

  -- The run is failed with the reason, its dead letter recorded, and its end announced.
  unfoldable pub record_failure : ℕ → Text → Run → RunStatus → Exec System (Unit {0})
  record_failure attempt reason run next = do
    set_status run_id next (error_patch reason)
    add_dead_letter attempt reason
    write_audit run.org_id run_id (text "worker") (text "run.dead_lettered")
        (some (meta2 (text "attempts") (nat_json attempt) (text "reason") (str reason)))
    emit deps.dispatch.runtime.has_events run_failed run_id run.org_id
        (meta1 (text "reason") (str reason))
    emit deps.dispatch.runtime.has_events run_dead_lettered run_id run.org_id
        (meta2 (text "attempts") (nat_json attempt) (text "reason") (str reason))

  -- Attempts exhausted: the terminal failure of a stored run.
  unfoldable pub bury : ℕ → Text → Run → Exec System (Unit {0})
  bury attempt reason run = do
    next ← lift (transition run.status failed)
    record_failure attempt reason run next

  unfoldable pub give_up : ℕ → Text → Option Run → Exec System (Unit {0})
  give_up attempt reason none = pure tt
  give_up attempt reason (some run) = bury attempt reason run

  unfoldable pub on_error : Exec System (Unit {0}) → ℕ → Error → Exec System (Unit {0})
  on_error again attempt e =
      if ltb attempt deps.max_attempts
      then (do
        found ← find_run run_id
        write_audit (org_or_unknown found) run_id (text "worker") (text "run.retry_scheduled")
            (some (meta2 (text "attempt") (nat_json attempt) (text "reason") (str (message e))))
        again)
      else (do found ← find_run run_id; give_up attempt (message e) found)

  -- The processor, over the delivery that a retry makes.
  unfoldable pub process_job : Exec System (Unit {0}) → Exec System (Unit {0})
  process_job again = do
    attempt ← increment_attempts run_id
    try_catch (dispatch_run deps.dispatch run_id) (on_error again attempt)

  -- queue.enqueue; the first argument bounds the nested deliveries.
  unfoldable pub enqueue : ℕ → Exec System (Unit {0})
  enqueue zero = throw (thrown (text "out of fuel"))
  enqueue (suc fuel) = do count_delivery run_id; process_job (enqueue fuel)
