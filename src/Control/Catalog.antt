-- ===== src/Control/Catalog.antt =====
-- agent-os/src/api/controlPlane.ts: the catalogue of teams, and hiring a team.
pub mod Hiring
pub mod Twice
use nastroyka_claude.Base.{
  ℕ, ◌+◌, List, [], ◌∷◌, ◌++◌, map, length, Text, text, mem_text, Option, none, some, Bool, true,
  false,
}
use nastroyka_claude.Domain.Json.{Json, str}
use nastroyka_claude.Domain.Types.{AgentType, Agent}
use nastroyka_claude.Domain.Errors.{not_found}
use nastroyka_claude.Exec.{Exec, pure, gets, ◌>>=◌, ◌>>◌}
use nastroyka_claude.System.{System, meta2, nat_json, or_throw}
use nastroyka_claude.Teams.Templates.{
  TeamTemplateMember, TeamTemplate, team_templates, find_template,
}
use nastroyka_claude.Repo
use nastroyka_claude.Control.{NewAgent, require_org, add_agent, audit_org}

pub record TemplateView : Type 0 where
  pub id : Text
  pub title : Text
  pub description : Text
  pub recommended : Bool
  pub members : List (Text × AgentType)

unfoldable pub list_team_templates : List TemplateView
list_team_templates =
    map
      (λ (t : TeamTemplate). record {
        id = t.id;
        title = t.title;
        description = t.description;
        recommended = t.recommended;
        members = map (λ (m : TeamTemplateMember). (m.name, m.type)) t.members;
      })
      team_templates

pub record Hired : Type 0 where
  pub template_id : Text
  pub title : Text
  pub hired : List Agent

-- The agent that is created for a member.
abbrev pub new_member : Text → TeamTemplateMember → NewAgent
new_member org_id m = record {
  org_id = org_id;
  name = m.name;
  type = m.type;
  system_prompt = m.system_prompt;
  allowed_tools = none;
}

-- The loop over the members; `uuids` gives what `randomUUID()` gives for the i-th created agent.
unfoldable pub hire_members :
    (ℕ → Text) → ℕ → Text → List Text → List TeamTemplateMember → Exec System (List Agent)
hire_members uuids i org_id names [] = pure []
hire_members uuids i org_id names (m ∷ ms) = elim (mem_text m.name names) [
  | true ↦ hire_members uuids i org_id names ms
  | false ↦ do
    agent ← add_agent (uuids i) (new_member org_id m)
    hired ← hire_members uuids (i + 1) org_id names ms
    pure (agent ∷ hired)
]

abbrev pub agent_names : List Agent → List Text
agent_names existing = map (λ (a : Agent). a.name) existing

-- hireTeam, once the template is found
unfoldable pub hire_template : (ℕ → Text) → Text → TeamTemplate → Exec System Hired
unfolding Repo.list_agents
hire_template uuids org_id template = do
  existing ← gets (λ s. Repo.list_agents org_id s.repo)
  hired ← hire_members uuids 0 org_id (agent_names existing) template.members
  audit_org org_id (text "team.hired")
      (meta2 (text "templateId") (str template.id) (text "hired") (nat_json (length hired)))
  pure (record { template_id = template.id; title = template.title; hired = hired })

unfoldable pub hire_team : (ℕ → Text) → (org_id template_id : Text) → Exec System Hired
hire_team uuids org_id template_id = do
  require_org org_id
  template ← or_throw (not_found (text "team template " ++ template_id)) (find_template template_id)
  hire_template uuids org_id template
