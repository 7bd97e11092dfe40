-- ===== src/System/Rules.antt =====
-- The rules for the actions of System, for invariants that speak of the stored runs only.
use nastroyka_claude.Exec.{◌>>=◌}
use nastroyka_claude.Base.{
  ◌∙◌, ◌≡◌, sym, subst, Bool, true, false, Option, none, some, arith, Text, Map, eq_text,
  eq_text_refl, Option-cases, inl, inr,
}
use nastroyka_claude.Base.Maps
use nastroyka_claude.Base.Maps.{get-set}
use nastroyka_claude.Domain.Json.{Json}
use nastroyka_claude.Domain.Types.{RunStatus, Agent, Run, Step}
use nastroyka_claude.Domain.Errors.{Error, Result, ok, err}
use nastroyka_claude.Repo.{Patch, patch_run}
use nastroyka_claude.Exec.Triple.{Triple, Ends}
use nastroyka_claude.Exec.Keeps.{Keeps, keeps_rules}
use nastroyka_claude.System.{
  after_update, System, RunEventType, or_throw, find_run, require_run, require_agent, write_audit,
  emit, set_status, add_step,
}

-- `J` of the stored runs and agents.
pub record OnRuns (J : Map Run → Map Agent → Type 0) (s : System) : Type 0 where
  pub runs : J s.repo.runs s.repo.agents

-- The stored run of an id.
abbrev pub Holds : Text → Option Run → Map Run → Map Agent → Type 0
Holds run_id x m g = Maps.get run_id m ≡ x

module _ {J : Map Run → Map Agent → Type 0} where
  pub or_throw-OnRuns : {A : Type 0} (e : Error) (o : Option A) → Keeps (OnRuns J) (or_throw e o)
  unfolding or_throw
  or_throw-OnRuns e none = record { at = λ s h. h }
  or_throw-OnRuns e (some a) = record { at = λ s h. h }

  pub find_run-OnRuns : (run_id : Text) → Keeps (OnRuns J) (find_run run_id)
  unfolding find_run
  find_run-OnRuns run_id = record { at = λ s h. h }

  pub require_run-OnRuns : (run_id : Text) → Keeps (OnRuns J) (require_run run_id)
  unfolding require_run
  require_run-OnRuns run_id = search (keeps_rules, or_throw-OnRuns)

  pub require_agent-OnRuns : (agent_id : Text) → Keeps (OnRuns J) (require_agent agent_id)
  unfolding require_agent
  require_agent-OnRuns agent_id = search (keeps_rules, or_throw-OnRuns)

  pub write_audit-OnRuns :
      (org_id run_id actor action : Text) (meta : Option Json)
      → Keeps (OnRuns J) (write_audit org_id run_id actor action meta)
  unfolding write_audit
  write_audit-OnRuns org_id run_id actor action meta = record {
    at = λ s h. record { runs = h.runs };
  }

  pub emit-OnRuns :
      (on : Bool) (type : RunEventType) (run_id org_id : Text) (value : Json)
      → Keeps (OnRuns J) (emit on type run_id org_id value)
  unfolding emit
  emit-OnRuns true type run_id org_id value = record { at = λ s h. record { runs = h.runs } }
  emit-OnRuns false type run_id org_id value = record { at = λ s h. h }

  pub add_step-OnRuns : (step : Step) → Keeps (OnRuns J) (add_step step)
  unfolding add_step
  add_step-OnRuns step = record { at = λ s h. record { runs = h.runs } }

pub ruleset on_runs_rules = (
  keeps_rules, or_throw-OnRuns, find_run-OnRuns, require_run-OnRuns, require_agent-OnRuns,
  write_audit-OnRuns, emit-OnRuns, add_step-OnRuns,
)

-- `J` does not see what is stored under an id.
abbrev pub Ignores : (Map Run → Map Agent → Type 0) → Text → Type 0
Ignores J run_id = (x : Run) (m : Map Run) (g : Map Agent) → J m g → J (Maps.set run_id x m) g

pub set_status-other :
    (J : Map Run → Map Agent → Type 0) (run_id : Text) (status : RunStatus) (p : Patch)
    → Ignores J run_id
    → Keeps (OnRuns J) (set_status run_id status p)
unfolding set_status
set_status-other J run_id status p other = record { at = kept }
  where
    kept : (s : System) → OnRuns J s → OnRuns J (set_status run_id status p s).1
    kept s h = elim (Option-cases (Maps.get run_id s.repo.runs)) [
      | inl e ↦ rw (e, after_update) h
      | inr (x, e) ↦
          rw (e, after_update)
            (record { runs = other (patch_run x p status) s.repo.runs s.repo.agents h.runs })
    ]

pub Holds-Ignores :
    (run_id j : Text) (o : Option Run) → eq_text run_id j ≡ false → Ignores (Holds j o) run_id
Holds-Ignores run_id j o ne x m g h = ground (arith, get-set run_id j x m)

-- A status change of a stored run succeeds, and stores the changed run.
pub set_status-Holds :
    (run_id : Text) (x : Run) (status : RunStatus) (p : Patch) (s : System)
    → Maps.get run_id s.repo.runs ≡ some x
    → ((set_status run_id status p s).0 ≡ ok tt)
      × (Maps.get run_id (set_status run_id status p s).1.repo.runs ≡ some (patch_run x p status))
      × ((set_status run_id status p s).1.repo.agents ≡ s.repo.agents)
unfolding set_status
set_status-Holds run_id x status p s h =
    ground (arith, eq_text_refl run_id, get-set run_id run_id (patch_run x p status) s.repo.runs)

-- The stored run of an id exists, and `C` holds of it.
abbrev pub At : Text → (Run → Map Agent → Type 0) → Map Run → Map Agent → Type 0
At run_id C m g = (y : Run) × (Maps.get run_id m ≡ some y) × C y g

pub set_status-At :
    (run_id : Text) (C D : Run → Map Agent → Type 0) (status : RunStatus) (p : Patch)
    → ((y : Run) (g : Map Agent) → C y g → D (patch_run y p status) g)
    → Triple
        (OnRuns (At run_id C))
        (set_status run_id status p)
        (λ _. OnRuns (At run_id D))
        (λ _ _. ⊥)
set_status-At run_id C D status p h = record {
  run = λ s c.
      let (done, stored, agents) = set_status-Holds run_id c.runs.0 status p s c.runs.1 in
      ends (set_status run_id status p s) done (record {
        runs = (
          patch_run c.runs.0 p status,
          stored,
          subst (D (patch_run c.runs.0 p status)) (sym agents) (h c.runs.0 s.repo.agents c.runs.2),
        );
      });
}
  where
    ends :
        (r : Result (Unit {0}) × System)
        → r.0 ≡ ok tt
        → OnRuns (At run_id D) r.1
        → Ends (λ _. OnRuns (At run_id D)) (λ _ _. ⊥) r
    ends (ok a, s) e k = k
    ends (err e, s) f k = cc

-- A stored run is found.
pub require_run-some :
    (run_id : Text) (x : Run) (s : System)
    → Maps.get run_id s.repo.runs ≡ some x
    → require_run run_id s ≡ (ok x, s)
unfolding require_run
require_run-some run_id x s e = rw e

-- A stored agent is found.
pub require_agent-some :
    (agent_id : Text) (a : Agent) (s : System)
    → Maps.get agent_id s.repo.agents ≡ some a
    → require_agent agent_id s ≡ (ok a, s)
unfolding require_agent ◌>>=◌ or_throw
require_agent-some agent_id a s e = rw e

pub At-Ignores :
    (run_id j : Text) (C : Run → Map Agent → Type 0)
    → eq_text run_id j ≡ false
    → Ignores (At j C) run_id
At-Ignores run_id j C ne x m g h = (h.0, get-set run_id j x m ∙ rw ne h.1, h.2)
