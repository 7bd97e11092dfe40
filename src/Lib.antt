-- ===== src/Lib.antt =====
-- Agent OS (agent-os/src): a control plane creates runs, a queue delivers them to a worker, and the
-- worker dispatches each to an agent's runtime or to the orchestrator, all over one repository.
--
-- - Domain: domain/types.ts, domain/errors.ts (humanizeRunError), domain/runStateMachine.ts, and
--   JSON values with JSON.stringify.
-- - Repo: adapters/repo.inMemory.ts, one function per method over a store that is passed along.
-- - Exec: the monad of actions that change a state and may throw, with rules for invariants and for
--   what holds at the end. System: the state of a process (store, queue counters, published events,
--   the calls made so far) and the actions on it that the other parts share.
-- - Tools: tools/registry.ts, and the tools of httpRequest.ts, codeExec.ts and document.ts,
--   and adapters/search.mock.ts. Runtime: agent/runtime.ts (executeRun is `execute_run`, its loop
--   `iterate`, its catch block `attempt_failed`).
-- - Planner: orchestrator/planner.ts. Models: the planner classes and planner.heuristic.ts, the gateway
--   that fails over between providers (model.gateway.ts), and the models that call nothing
--   (model.mock.ts, model.offline.ts, model.echo.ts). Orchestrator: orchestrator/orchestrator.ts and complexity.ts
--   (executeOrchestration is `execute_orchestration`, the debate `debate_from`).
-- - Dispatch: agent/dispatch.ts. Worker: worker/worker.ts on adapters/queue.inMemory.ts, where
--   `enqueue` delivers at once and a retry is a nested delivery.
-- - Control: api/controlPlane.ts, agent/chatPrompt.ts and orchestrator/phase.ts; Control.Catalog hires
--   the teams of Teams (teams/templates.ts), Control.Team reports on runs.
-- - Memory: adapters/memory.repo.ts, recall over the stored memories. Metrics: observability/metrics.ts.
-- - Api: the routes of api/server.ts, the statuses of its errors and its limit on bodies.
-- - Bus: events/bus.ts, the subscriptions; what a process publishes is a trace in System.
-- - Teamly: the pure library of teamly/src/lib (rbac.ts, slug.ts, lms/grade.ts, lms/progress.ts,
--   tiptap.ts, ai/chunk.ts) and its services enrollment.ts, pages.ts, spaces.ts and
--   comments.ts over a database; a percentage and Unicode's classes are parameters.
-- - Examples: small inputs at which the properties are exercised.
--
-- The model, the tools' bodies, the memory store, the masker and the planner are parameters: they
-- answer any way at all, and are told how often they were called. `fetch` is a parameter too, with
-- the requests handed to it as a state, and so is the pathname that URL parsing gives. The database of teamly is a
-- parameter whose writes may throw; where a result needs it, laws state what its foreign keys and
-- unique indexes make of a write (failures of the connection are left out). Texts are lists of
-- UTF-16 units, of code points in slugs, times and random ids are arguments.
--
-- Fuel: `enqueue` counts nested deliveries, and the attempts that a run has left are enough;
-- the control plane allows one more than a run has attempts. The runtime's loop recurses on its
-- iteration limit, the debate on its rounds, the topological sort on the number of subtasks, the
-- search for a slug on the slugs taken, and chunking on the length of the text.
--
-- Not modelled: token streaming and latencies (they change no stored run), children dispatched on a
-- queue, the asynchronous in-memory queue, the Prisma, BullMQ, Redis, vector, external model, search
-- and sandbox adapters (they call outside services), the HTTP server's sockets and streams, the page, the regex masker,
-- and of teamly the other services over its database, its sessions and its pages.
pub mod Base
pub mod Domain
pub mod Repo
pub mod Exec
pub mod Tools
pub mod System
pub mod Runtime
pub mod Planner
pub mod Orchestrator
pub mod Dispatch
pub mod Worker
pub mod Control
pub mod Teamly
pub mod Memory
pub mod Models
pub mod Metrics
pub mod Teams
pub mod Bus
pub mod Api
pub mod Examples
