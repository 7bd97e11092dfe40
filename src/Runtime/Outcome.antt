-- ===== src/Runtime/Outcome.antt =====
-- agent-os/src/agent/runtime.ts: the ends of an execution.
use nastroyka_claude.Base.{
  none, not, ◌∙◌, Map, ℕ, zero, suc, ◌+◌, ◌≡◌, refl, true, false, ◌||◌, some, List, [], ◌∷◌, Text,
  arith, is_blank,
}
use nastroyka_claude.Domain.Json.{str}
use nastroyka_claude.Domain.Types.{eq_status, RunStatus, running, succeeded, Agent, Run, ToolCall}
use nastroyka_claude.Domain.Errors.{Error, ok, message}
use nastroyka_claude.Domain.Errors.Human.{is_placeholder_text}
use nastroyka_claude.Domain.StateMachine.{transition, can_transition, is_terminal}
use nastroyka_claude.Repo
use nastroyka_claude.Repo.{Patch, no_patch, patch_run}
use nastroyka_claude.Exec.{Exec, ◌>>=◌}
use nastroyka_claude.Exec.Triple.{
  Triple, Ends, bind, throw_rule, lift_rule, if_rule, try_rule, when_rule, weaken, eq_rule,
  then_keeps, Keeps→Triple,
}
use nastroyka_claude.System.{System, set_status}
use nastroyka_claude.System.Rules.{
  OnRuns, At, on_runs_rules, set_status-At, require_run-some, require_agent-some,
}
use nastroyka_claude.Runtime.Deps.{RuntimeDeps}
use nastroyka_claude.Runtime.Loop.{Progress, output_patch, succeed, finish, after_turn, iterate}
use nastroyka_claude.Runtime.Frame.{
  remember-OnRuns, compose_system-OnRuns, run_calls-OnRuns, take_turn-OnRuns,
}
use nastroyka_claude.Runtime.{error_patch, enter_running, attempt_failed, start, execute_run}

-- The run that an execution finds, and the agents stored then.
pub record Found : Type 0 where
  pub run : Run
  pub agents : Map Agent

-- What no execution changes of a run; `g` are the agents stored now.
pub record SameTask (x : Found) (y : Run) (g : Map Agent) : Type 0 where
  pub id : y.id ≡ x.run.id
  pub org_id : y.org_id ≡ x.run.org_id
  pub agent_id : y.agent_id ≡ x.run.agent_id
  pub input : y.input ≡ x.run.input
  pub attempts : y.attempts ≡ x.run.attempts
  pub parent_run_id : y.parent_run_id ≡ x.run.parent_run_id
  pub agents : g ≡ x.agents

-- The run has succeeded, with an answer that is no placeholder.
pub record IsAnswered (x : Found) (y : Run) (g : Map Agent) : Type 0 where
  pub same : SameTask x y g
  pub status : y.status ≡ succeeded
  pub answer : Text
  pub output : y.output ≡ some (str answer)
  pub real : is_placeholder_text answer ≡ false

pub record HasStatus (status : RunStatus) (x : Found) (y : Run) (g : Map Agent) : Type 0 where
  pub same : SameTask x y g
  pub has_status : y.status ≡ status

-- Where the stored run of an id stands with respect to what the execution found.
abbrev pub Answered : Text → Found → System → Type 0
Answered run_id x = OnRuns (At run_id (IsAnswered x))

abbrev pub Running : Text → Found → System → Type 0
Running run_id x = OnRuns (At run_id (HasStatus running x))

abbrev pub Kept : Text → Found → System → Type 0
Kept run_id x = OnRuns (At run_id (SameTask x))

Answered→Kept : (run_id : Text) (x : Found) (s : System) → Answered run_id x s → Kept run_id x s
Answered→Kept run_id x s h = record { runs = (h.runs.0, h.runs.1, h.runs.2.same) }

pub Running→Kept : (run_id : Text) (x : Found) (s : System) → Running run_id x s → Kept run_id x s
Running→Kept run_id x s h = record { runs = (h.runs.0, h.runs.1, h.runs.2.same) }

HasStatus→IsAnswered :
    (x : Found) (answer : Text)
    → is_placeholder_text answer ≡ false
    → (y : Run) (g : Map Agent) → HasStatus running x y g
    → IsAnswered x (patch_run y (output_patch (str answer)) succeeded) g
HasStatus→IsAnswered x answer real y g h = record {
  same = ground (arith, h.same);
  status = refl;
  answer = answer;
  output = refl;
  real = real;
}

pub SameTask→HasStatus :
    (x : Found) (p : Patch) (status : RunStatus)
    → p.attempts ≡ none
    → (y : Run) (g : Map Agent) → SameTask x y g
    → HasStatus status x (patch_run y p status) g
SameTask→HasStatus x p status e y g h = record {
  same = record {
    id = h.id;
    org_id = h.org_id;
    agent_id = h.agent_id;
    input = h.input;
    attempts = ground (arith, e, h.attempts);
    parent_run_id = h.parent_run_id;
    agents = h.agents;
  };
  has_status = refl;
}

module _ (deps : RuntimeDeps) (run_id org_id : Text) (agent : Agent) (x : Found) where
  succeed-ends :
      (task answer : Text) (p : Progress)
      → is_placeholder_text answer ≡ false
      → Triple
          (Running run_id x)
          (succeed deps run_id org_id agent task answer p succeeded)
          (λ _. Answered run_id x)
          (λ _. Kept run_id x)
  unfolding succeed
  succeed-ends task answer p real =
      then_keeps
        (weaken (λ s h. h)
          (set_status-At run_id (HasStatus running x) (IsAnswered x) succeeded _
            (HasStatus→IsAnswered x answer real))
          (λ _ s h. h) (λ e s h. absurd h))
        (search (on_runs_rules, remember-OnRuns) depth 10) (λ _ s h. h)
        (λ e. Answered→Kept run_id x)

  finish-ends :
      (task answer : Text) (p : Progress)
      → Triple
          (Running run_id x)
          (finish deps run_id org_id agent task answer p)
          (λ _. Answered run_id x)
          (λ _. Kept run_id x)
  unfolding finish
  finish-ends task answer p =
      if_rule (is_blank answer || is_placeholder_text answer)
        (λ _. throw_rule _ (Running→Kept run_id x))
        λ real.
          bind
            (lift_rule {Q = λ next s. (next ≡ succeeded) × Running run_id x s}
              (transition running succeeded) (unfold transition can_transition in λ s h. (refl, h)))
            λ next.
              eq_rule (succeed deps run_id org_id agent task answer p) next succeeded
                (succeed-ends task answer p (ground (arith, real)))

  after_turn-ends :
      (task : Text) (next : Progress → Exec System (Unit {0}))
      → ((p : Progress)
          → Triple (Running run_id x) (next p) (λ _. Answered run_id x) (λ _. Kept run_id x))
      → (calls : List ToolCall) (answer : Text) (p : Progress)
      → Triple
          (Running run_id x)
          (after_turn deps run_id org_id agent task next calls answer p)
          (λ _. Answered run_id x)
          (λ _. Kept run_id x)
  unfolding after_turn
  after_turn-ends task next h [] answer p = finish-ends task answer p
  after_turn-ends task next h (call ∷ calls) answer p =
      bind
        (weaken (λ s o. o)
          (Keeps→Triple (run_calls-OnRuns deps run_id org_id agent (call ∷ calls) _)) (λ _ s o. o)
          (λ _. Running→Kept run_id x))
        h

  iterate-ends :
      (task system : Text) (left iter : ℕ) (p : Progress)
      → Triple
          (Running run_id x)
          (iterate deps run_id org_id agent task system left iter p)
          (λ _. Answered run_id x)
          (λ _. Kept run_id x)
  unfolding iterate
  iterate-ends task system zero iter p =
      bind
        (weaken (λ s o. o) (Keeps→Triple (search on_runs_rules)) (λ _ s o. o)
          (λ _. Running→Kept run_id x))
        (λ _. throw_rule _ (Running→Kept run_id x))
  iterate-ends task system (suc left) iter p =
      bind
        (weaken (λ s o. o)
          (Keeps→Triple (take_turn-OnRuns deps run_id org_id agent task system iter p)) (λ _ s o. o)
          (λ _. Running→Kept run_id x))
        λ t.
          after_turn-ends task _ (iterate-ends task system left (iter + 1)) t.0.tool_calls t.1 t.2

enters :
    (status : RunStatus)
    → is_terminal status ≡ false
    → not (eq_status status running) ≡ true
    → transition status running ≡ ok running
unfolding transition can_transition is_terminal
enters status alive other = ground arith

is_running : (status : RunStatus) → not (eq_status status running) ≡ false → status ≡ running
is_running status h = ground arith

module _ (deps : RuntimeDeps) (run_id : Text) (x : Found) where
  attempt_failed-ends :
      (org_id : Text) (e : Error)
      → Triple
          (Kept run_id x)
          (attempt_failed deps run_id org_id e)
          (λ _. Answered run_id x)
          (λ _. Running run_id x)
  unfolding attempt_failed
  attempt_failed-ends org_id e =
      bind
        (weaken (λ s h. h)
          (set_status-At run_id (SameTask x) (HasStatus running x) running _
            (SameTask→HasStatus x (error_patch (message e)) running refl))
          (λ _ s h. h) (λ e s h. absurd h))
        λ _.
          bind (weaken (λ s h. h) (Keeps→Triple (search on_runs_rules)) (λ _ s h. h) (λ _ s h. h))
            (λ _. throw_rule e (λ s h. h))

  pub enter_running-ends :
      (status : RunStatus)
      → is_terminal status ≡ false
      → Triple
          (OnRuns (At run_id (HasStatus status x)))
          (enter_running deps run_id status)
          (λ _. Running run_id x)
          (λ _ _. ⊥)
  unfolding enter_running
  enter_running-ends status alive =
      when_rule _
        (λ other.
          bind
            (lift_rule {Q = λ next s. (next ≡ running) × OnRuns (At run_id (HasStatus status x)) s}
              (transition status running) λ s h. rw (enters status alive other) (refl, h))
            λ next.
              eq_rule (λ st. set_status run_id st no_patch) next running
                (set_status-At run_id (HasStatus status x) (HasStatus running x) running no_patch
                  (λ y g h. SameTask→HasStatus x no_patch running refl y g h.same)))
        (λ same s h. record {
          runs = (
            h.runs.0,
            h.runs.1,
            record {
              same = h.runs.2.same;
              has_status = h.runs.2.has_status ∙ is_running status same;
            },
          );
        })

  pub start-ends :
      (run : Run) (agent : Agent)
      → is_terminal run.status ≡ false
      → Triple
          (OnRuns (At run_id (HasStatus run.status x)))
          (start deps run_id run agent)
          (λ _. Answered run_id x)
          (λ _. Running run_id x)
  unfolding start
  start-ends run agent alive =
      bind
        (weaken (λ s h. h) (enter_running-ends run.status alive) (λ _ s h. h) (λ e s h. absurd h))
        λ _. bind (Keeps→Triple (search on_runs_rules)) λ _.
          bind (Keeps→Triple (search on_runs_rules)) λ _.
            bind (Keeps→Triple (compose_system-OnRuns deps agent run)) λ system.
              try_rule (iterate-ends deps run_id run.org_id agent x _ system _ 0 _)
                (attempt_failed-ends run.org_id)

-- An execution of a stored run that is not in a terminal state, and whose agent is stored, returns
-- only with the run succeeded and its output an answer that is no placeholder; if it throws, the run
-- is 'running'. Either way the rest of the run, its attempts included, and the agents are as they
-- were. This holds whatever the model, the tools, the memory store and the masker do.
pub execute_run-Ends :
    (deps : RuntimeDeps) (run_id : Text) (x : Run) (agent : Agent) (s : System)
    → Repo.get_run run_id s.repo ≡ some x
    → Repo.get_agent x.agent_id s.repo ≡ some agent
    → is_terminal x.status ≡ false
    → let found : Found = record { run = x; agents = s.repo.agents } in
      Ends (λ _. Answered run_id found) (λ _. Running run_id found) (execute_run deps run_id s)
unfolding execute_run ◌>>=◌ Repo.get_run Repo.get_agent
execute_run-Ends deps run_id x agent s found known alive = rw (require_run-some run_id x s found) (
    rw alive (
      rw (require_agent-some x.agent_id agent s known) (
        (start-ends deps run_id (record { run = x; agents = s.repo.agents }) x agent alive).run s
          (record { runs = (x, found, record { same = ground arith; has_status = refl }) }))))
