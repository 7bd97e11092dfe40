-- ===== src/Repo.antt =====
-- agent-os/src/adapters/repo.inMemory.ts: the repository behind the `Repository` port. The store is
-- a value that each method takes and gives back; `Date.now()` and `randomUUID()` are arguments.
pub mod Runs
pub mod Chat
pub mod Threads
use nastroyka_claude.Base.{
  ℕ, zero, suc, ◌+◌, ◌-◌, Bool, true, false, not, ◌&&◌, ◌||◌, Option, none, some, List, [], ◌∷◌,
  ◌++◌, map, any, keep, find, take_last, length, leb, ◌==◌, Text, eq_text, mem_text, Map,
  if◌then◌else◌,
}
use nastroyka_claude.Base.Maps
use nastroyka_claude.Domain.Json.{Json}
use nastroyka_claude.Domain.Types.{
  RunStatus, AgentType, MemoryKind, Org, Agent, Run, Step, DeadLetterRecord, MemoryRecord,
  ChatMessageRecord, eq_type, eq_role, eq_kind,
}
use nastroyka_claude.Domain.Errors.{Result, ok, err, update_missing_run, increment_missing_run}

pub record AuditRecord : Type 0 where
  pub org_id : Text
  pub run_id : Option Text
  pub actor : Text
  pub action : Text
  pub meta : Option Json

-- The `steps` map is the list of its values, whose key is the pair of run and index: in the key
-- text `${runId}:${index}` what follows the last colon is the index.
pub record Repo : Type 0 where
  pub orgs : Map Org
  pub agents : Map Agent
  pub runs : Map Run
  pub steps : List Step
  pub dead_letters : List DeadLetterRecord
  pub memories : List MemoryRecord
  pub chat_messages : List ChatMessageRecord
  pub audit_log : List AuditRecord

abbrev pub empty : Repo
empty = record {
  orgs = [];
  agents = [];
  runs = [];
  steps = [];
  dead_letters = [];
  memories = [];
  chat_messages = [];
  audit_log = [];
}

unfoldable pub seed_org : Org → Repo → Repo
seed_org o r = record r { orgs = Maps.set o.id o r.orgs }

unfoldable pub seed_agent : Agent → Repo → Repo
seed_agent a r = record r { agents = Maps.set a.id a r.agents }

unfoldable pub get_org : Text → Repo → Option Org
get_org org_id r = Maps.get org_id r.orgs

unfoldable pub get_agent : Text → Repo → Option Agent
get_agent agent_id r = Maps.get agent_id r.agents

unfoldable pub find_agent_by_type : Text → AgentType → Repo → Option Agent
find_agent_by_type org_id type r =
    find (λ (a : Agent). eq_text a.org_id org_id && eq_type a.type type) (Maps.values r.agents)

-- `input.allowedTools ?? []`
abbrev tools_or_none : Option (List Text) → List Text
tools_or_none none = []
tools_or_none (some ts) = ts

unfoldable pub create_agent :
    (uuid org_id name : Text) (type : AgentType) (system_prompt : Text)
    (allowed : Option (List Text))
    → Repo
    → Agent × Repo
create_agent uuid org_id name type system_prompt allowed r =
    let agent : Agent = record {
      id = nastroyka_claude.Base.text "agent_" ++ uuid;
      org_id = org_id;
      name = name;
      type = type;
      system_prompt = system_prompt;
      allowed_tools = some (tools_or_none allowed);
    } in
    (agent, record r { agents = Maps.set agent.id agent r.agents })

unfoldable pub list_agents : Text → Repo → List Agent
list_agents org_id r = keep (λ (a : Agent). eq_text a.org_id org_id) (Maps.values r.agents)

unfoldable pub get_run : Text → Repo → Option Run
get_run run_id r = Maps.get run_id r.runs

-- An existing run is never overwritten, and is what the caller gets.
unfoldable pub create_run : Run → Repo → Run × Repo
create_run run r = elim (Maps.get run.id r.runs) [
  | some existing ↦ (existing, r)
  | none ↦ (run, record r { runs = Maps.set run.id run r.runs })
]

abbrev has_parent : Text → Option Text → Bool
has_parent p (some q) = eq_text q p
has_parent p none = false

unfoldable pub list_child_runs : Text → Repo → List Run
list_child_runs parent r =
    keep (λ (x : Run). has_parent parent x.parent_run_id) (Maps.values r.runs)

-- An empty agent id and a limit of 0 count as not given.
abbrev wants_agent : Option Text → Text → Bool
wants_agent (some (c ∷ a)) b = eq_text b (c ∷ a)
wants_agent _ b = true

abbrev cap_runs : Option ℕ → List Run → List Run
cap_runs (some (suc n)) xs = take_last (suc n) xs
cap_runs _ xs = xs

unfoldable pub list_runs_by_org : Text → Option Text → Option ℕ → Repo → List Run
list_runs_by_org org_id agent_id limit r = cap_runs limit (
    keep (λ (x : Run). eq_text x.org_id org_id && wants_agent agent_id x.agent_id)
      (Maps.values r.runs))

-- The fields that a `Partial<Run>` gives; `some none` stands for `error: undefined`.
pub record Patch : Type 0 where
  pub output : Option Json
  pub error : Option (Option Text)
  pub attempts : Option ℕ

abbrev pub no_patch : Patch
no_patch = record { output = none; error = none; attempts = none }

abbrev given {ℓ} : {A : Type ℓ} → Option A → A → A
given none a = a
given (some b) a = b

abbrev given_output : Option Json → Option Json → Option Json
given_output none o = o
given_output (some v) o = some v

-- { ...run, ...patch, status }
abbrev pub patch_run : Run → Patch → RunStatus → Run
patch_run x p status = record x {
  output = given_output p.output x.output;
  error = given p.error x.error;
  attempts = given p.attempts x.attempts;
  status = status;
}

unfoldable pub update_run_status : Text → RunStatus → Patch → Repo → Result Repo
update_run_status run_id status p r = elim (Maps.get run_id r.runs) [
  | none ↦ err (update_missing_run run_id)
  | some x ↦ ok (record r { runs = Maps.set run_id (patch_run x p status) r.runs })
]

unfoldable pub increment_run_attempts : Text → Repo → Result (ℕ × Repo)
increment_run_attempts run_id r = elim (Maps.get run_id r.runs) [
  | none ↦ err (increment_missing_run run_id)
  | some x ↦ ok (
    x.attempts + 1,
    record r { runs = Maps.set run_id (record x { attempts = x.attempts + 1 }) r.runs },
  )
]

abbrev same_step : Step → Step → Bool
same_step s t = eq_text s.run_id t.run_id && s.index == t.index

upsert_step : Step → List Step → List Step
upsert_step s [] = s ∷ []
upsert_step s (t ∷ ts) = if same_step t s then s ∷ ts else t ∷ upsert_step s ts

unfoldable pub append_step : Step → Repo → Repo
unfolding upsert_step
append_step s r = record r { steps = upsert_step s r.steps }

-- A stable sort by a key, as `Array.prototype.sort` is.
insert_step : Step → List Step → List Step
insert_step s [] = s ∷ []
insert_step s (t ∷ ts) = if leb s.index t.index then s ∷ t ∷ ts else t ∷ insert_step s ts

unfoldable pub sort_steps : List Step → List Step
unfolding insert_step
sort_steps [] = []
sort_steps (s ∷ ts) = insert_step s (sort_steps ts)

unfoldable pub list_steps : Text → Repo → List Step
unfolding sort_steps
list_steps run_id r = sort_steps (keep (λ (s : Step). eq_text s.run_id run_id) r.steps)

abbrev pub or_now : ℕ → Option ℕ → Option ℕ
or_now now none = some now
or_now now (some t) = some t

unfoldable pub append_memory : ℕ → MemoryRecord → Repo → Repo
append_memory now m r = record r {
  memories = r.memories ++ record m { created_at = or_now now m.created_at } ∷ [];
}

abbrev wants_kind : Option (List MemoryKind) → MemoryKind → Bool
wants_kind none k = true
wants_kind (some ks) k = any (eq_kind k) ks

unfoldable pub list_memories : Text → Option (List MemoryKind) → Repo → List MemoryRecord
list_memories agent_id kinds r =
    keep (λ (m : MemoryRecord). eq_text m.agent_id agent_id && wants_kind kinds m.kind) r.memories

unfoldable pub record_dead_letter : DeadLetterRecord → Repo → Repo
record_dead_letter d r = record r { dead_letters = r.dead_letters ++ d ∷ [] }

unfoldable pub list_dead_letters : Repo → List DeadLetterRecord
list_dead_letters r = r.dead_letters

unfoldable pub mark_dead_letter_requeued : Text → Repo → Repo
mark_dead_letter_requeued run_id r = record r {
  dead_letters = keep (λ (d : DeadLetterRecord). not (eq_text d.run_id run_id)) r.dead_letters;
}

unfoldable pub audit : AuditRecord → Repo → Repo
audit entry r = record r { audit_log = r.audit_log ++ entry ∷ [] }
