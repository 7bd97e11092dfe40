-- ===== src/Worker/Attempts.antt =====
-- agent-os/src/worker/worker.ts on adapters/queue.inMemory.ts: deliveries, retries and dead letters.
use nastroyka_claude.Base.{
  subst, Map, ℕ, zero, suc, ◌+◌, ◌≤◌, ◌<◌, ◌≡◌, refl, inl, inr, false, some, Text, arith,
  eq_text_refl, ltb, Bool-cases,
}
use nastroyka_claude.Base.Maps
use nastroyka_claude.Base.Maps.{get-set}
use nastroyka_claude.Domain.Types.{running, Agent, Run}
use nastroyka_claude.Domain.Errors.{Error, Result, ok, err, message}
use nastroyka_claude.Domain.StateMachine.{is_terminal}
use nastroyka_claude.Repo
use nastroyka_claude.Exec.{Exec, try_catch, ◌>>=◌}
use nastroyka_claude.Exec.Triple.{Ends-mono, recover-Ends}
use nastroyka_claude.Repo.{patch_run}
use nastroyka_claude.System.{System, find_run, write_audit}
use nastroyka_claude.System.Rules.{OnRuns}
use nastroyka_claude.Runtime.Outcome.{Found, Running}
use nastroyka_claude.Orchestrator.{OrchestratorDeps}
use nastroyka_claude.Orchestrator.Outcome.{Succeeded}
use nastroyka_claude.Dispatch.{dispatch_run}
use nastroyka_claude.Worker.{
  WorkerDeps, increment_attempts, count_delivery, give_up, on_error, process_job, enqueue,
}
use nastroyka_claude.Worker.Burial.{dispatch_run-Ends, Settles, Settled, bury-settles, IsSettled}

-- The run is stored and not in a terminal state, and its agent is stored.
abbrev pub Deliverable : Text → Run → Map Run → Map Agent → Type 0
Deliverable run_id x m g =
    (agent : Agent) × (Maps.get run_id m ≡ some x)
    × (Maps.get x.agent_id g ≡ some agent)
    × (is_terminal x.status ≡ false)

abbrev pub counted : Run → Run
counted x = record x { attempts = x.attempts + 1 }

-- One attempt more is counted, and nothing else changes.
pub increment_attempts_lem :
    (run_id : Text) (x : Run) (s : System)
    → Maps.get run_id s.repo.runs ≡ some x
    → increment_attempts run_id s ≡ (
      ok (x.attempts + 1),
      record s { repo = record s.repo { runs = Maps.set run_id (counted x) s.repo.runs } },
    )
unfolding increment_attempts
increment_attempts_lem run_id x s stored = ground arith

module _ (deps : WorkerDeps) (planner : OrchestratorDeps)
    (planned : deps.dispatch.orchestration ≡ some planner) (run_id : Text) where
  -- After a failed attempt the run is 'running', and can be delivered again.
  retry-Deliverable :
      (x : Run) (agent : Agent) (g : Map Agent) (s : System)
      → Maps.get x.agent_id g ≡ some agent
      → (h : Running run_id (record { run = x; agents = g }) s)
      → OnRuns (Deliverable run_id h.runs.0) s
  retry-Deliverable x agent g s known h = record {
    runs = (
      agent,
      h.runs.1,
      ground (arith, h.runs.2.same, known),
      unfold is_terminal in rw h.runs.2.has_status refl,
    );
  }

  on_error-Settles :
      (again : Exec System (Unit {0})) (y : Run) (e : Error) (s : System)
      → (y.attempts < deps.max_attempts
          → (t : System) → OnRuns (Deliverable run_id y) t
          → Settles deps.max_attempts run_id (again t))
      → OnRuns (Deliverable run_id y) s
      → y.status ≡ running
      → Settles deps.max_attempts run_id (on_error deps run_id again y.attempts e s)
  unfolding on_error find_run Repo.get_run give_up ◌>>=◌ write_audit
  on_error-Settles again y e s next h live = elim (Bool-cases (ltb y.attempts deps.max_attempts)) [
    | inl more ↦ rw more (next (ground arith) _ (record { runs = h.runs }))
    | inr done ↦ rw done (
        rw h.runs.1 (
          (bury-settles deps run_id (message e) y live (ground arith)).run s
            (record { runs = (y, h.runs.1, refl) })))
  ]

  counted-Deliverable :
      (x : Run) (s : System)
      → OnRuns (Deliverable run_id x) s
      → OnRuns
          (Deliverable run_id (counted x))
          (record s { repo = record s.repo { runs = Maps.set run_id (counted x) s.repo.runs } })
  counted-Deliverable x s h = record {
    runs = (
      h.runs.0,
      ground (arith, get-set run_id run_id (counted x) s.repo.runs, eq_text_refl run_id),
      h.runs.2,
      h.runs.3,
    );
  }

  -- The attempt itself, and what follows an error.
  attempt-Settles :
      (again : Exec System (Unit {0})) (x : Run) (s : System)
      → ((y : Run) (t : System)
          → y.attempts ≡ x.attempts
          → y.attempts < deps.max_attempts
          → OnRuns (Deliverable run_id y) t
          → Settles deps.max_attempts run_id (again t))
      → OnRuns (Deliverable run_id x) s
      → Settles deps.max_attempts run_id
          (try_catch (dispatch_run deps.dispatch run_id) (on_error deps run_id again x.attempts) s)
  unfolding try_catch
  attempt-Settles again x s next h =
      recover-Ends (dispatch_run deps.dispatch run_id s) (on_error deps run_id again x.attempts)
        (Settled deps.max_attempts run_id) (λ _. Running run_id here) (λ _ _. ⊥)
        (Ends-mono (λ _. Succeeded run_id here) (Settled deps.max_attempts run_id)
          (λ _. Running run_id here) (λ _. Running run_id here) _ succeeds (λ _ _ r. r)
          (dispatch_run-Ends deps.dispatch planner run_id x h.runs.0 s planned h.runs.1 h.runs.2
            h.runs.3))
        fails
    where
      here : Found
      here = record { run = x; agents = s.repo.agents }

      succeeds :
          (u : Unit {0}) (t : System)
          → Succeeded run_id here t
          → IsSettled deps.max_attempts run_id t
      succeeds u t r = record {
        run = r.runs.0;
        stored = r.runs.1;
        settled = inl r.runs.2.has_status;
      }

      fails :
          (e : Error) (t : System)
          → Running run_id here t
          → Settles deps.max_attempts run_id (on_error deps run_id again x.attempts e t)
      fails e t r =
          subst (λ n. Settles deps.max_attempts run_id (on_error deps run_id again n e t))
            r.runs.2.same.attempts
            (on_error-Settles again r.runs.0 e t
              (λ more u. next r.runs.0 u r.runs.2.same.attempts more)
              (retry-Deliverable x h.runs.0 s.repo.agents t h.runs.2 r) r.runs.2.has_status)

  enqueue-Settles :
      (fuel : ℕ) (x : Run) (s : System)
      → 0 < fuel
      → deps.max_attempts ≤ x.attempts + fuel
      → OnRuns (Deliverable run_id x) s
      → Settles deps.max_attempts run_id (enqueue deps run_id fuel s)
  unfolding enqueue process_job count_delivery ◌>>=◌
  enqueue-Settles zero x s some_fuel enough h = elim some_fuel [ ]
  enqueue-Settles (suc fuel) x s some_fuel enough h =
      rw (increment_attempts_lem run_id x (count_delivery run_id s).1 h.runs.1) (
        attempt-Settles (enqueue deps run_id fuel) (counted x) _
          (λ y t same more. enqueue-Settles fuel y t (omega arith) (omega arith))
          (counted-Deliverable x _ (record { runs = h.runs })))

-- With a planner configured, a delivery of a stored run that is not in a terminal state, and whose
-- agent is stored, returns with the run settled when the fuel is above 0 and covers the attempts that are left: the run has
-- succeeded, or it is 'failed' with at least the allowed attempts used up, and the last dead letter
-- is that of the run, with its attempts and its error. This holds whatever the model, the tools, the
-- planner, the memory store and the masker do; no delivery throws.
pub enqueue_settles :
    (deps : WorkerDeps) (planner : OrchestratorDeps) (run_id : Text) (x : Run) (agent : Agent)
    (fuel : ℕ) (s : System)
    → deps.dispatch.orchestration ≡ some planner
    → Repo.get_run run_id s.repo ≡ some x
    → Repo.get_agent x.agent_id s.repo ≡ some agent
    → is_terminal x.status ≡ false
    → 0 < fuel
    → deps.max_attempts ≤ x.attempts + fuel
    → ((enqueue deps run_id fuel s).0 ≡ ok tt)
      × IsSettled deps.max_attempts run_id (enqueue deps run_id fuel s).1
unfolding Repo.get_run Repo.get_agent
enqueue_settles deps planner run_id x agent fuel s planned stored known alive some_fuel enough =
    returned (enqueue deps run_id fuel s) (
      enqueue-Settles deps planner planned run_id fuel x s some_fuel enough
        (record { runs = (agent, stored, known, alive) }))
  where
    returned :
        (r : Result (Unit {0}) × System)
        → Settles deps.max_attempts run_id r
        → (r.0 ≡ ok tt) × IsSettled deps.max_attempts run_id r.1
    returned (ok u, t) h = (refl, h)
    returned (err e, t) h = absurd h
