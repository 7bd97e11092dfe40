-- ===== src/Control/Team.antt =====
-- agent-os/src/api/controlPlane.ts: what the control plane reports: the team of a run, the tasks of an
-- org, metrics, and the text of an uploaded document.
pub mod View
use nastroyka_claude.Base.{
  ℕ, Bool, true, false, not, ◌&&◌, ◌||◌, Option, none, some, List, [], ◌∷◌, ◌++◌, map, keep, take,
  take_last, Text, text, Map, includes, lower, if◌then◌else◌,
}
use mathlib.Core.List.{reverse}
use nastroyka_claude.Base.Maps
use nastroyka_claude.Domain.Json.{Json, str, prop, is_true}
use nastroyka_claude.Domain.Types.{RunStatus, AgentType, researcher, Agent, Run}
use nastroyka_claude.Domain.Errors.{Error, Result, ok, err, message, not_found, validation, thrown}
use nastroyka_claude.Domain.Errors.Human.{humanize_run_error}
use nastroyka_claude.Exec.{Exec, pure, throw, gets, ◌>>=◌, ◌>>◌}
use nastroyka_claude.System.{System, or_throw}
use nastroyka_claude.Orchestrator.Report.{verdict_needs_rework}
use nastroyka_claude.Bus.{InMemoryEventBus, subscribe}
use nastroyka_claude.Repo
use nastroyka_claude.Repo.{Repo}
use nastroyka_claude.Metrics
use nastroyka_claude.Metrics.{RunMetrics}
use nastroyka_claude.Control.{require_org, require_known_run}
use nastroyka_claude.Control.Phase.{
  TeamPhase, derive_team_phase, phase_label, is_review_id, is_revision_id, subtask_id_of,
}
use nastroyka_claude.Control.Prompt.{output_to_reply_text}

pub record Who : Type 0 where
  pub name : Text
  pub type : AgentType

pub record ChildView : Type 0 where
  pub run_id : Text
  pub subtask_id : Text
  pub agent_name : Text
  pub agent_type : AgentType
  pub status : RunStatus
  pub error_human : Option Text
  pub output_preview : Option Text

pub data Kind : Type 0 where
  contribution review revision : Kind

pub record Entry : Type 0 where
  pub author : Text
  pub agent_type : AgentType
  pub kind : Kind
  pub text : Text

pub data Verdict : Type 0 where
  approved rework : Verdict

pub record Review : Type 0 where
  pub agent_name : Text
  pub verdict : Option Verdict
  pub text : Text

-- What the loop over the children fills.
pub record Parts : Type 0 where
  pub children : List ChildView
  pub discussion : List Entry
  pub review : Option Review

pub record RunTeam : Type 0 where
  pub run : Run
  pub phase : TeamPhase
  pub phase_label : Text
  pub parts : Parts

abbrev who_of : Text → Option Agent → Who
who_of agent_id none = record { name = agent_id; type = researcher }
who_of agent_id (some a) = record { name = a.name; type = a.type }

-- repo.getAgent, with the id as the name of a missing agent
unfoldable pub find_who : Repo → Text → Who
find_who r agent_id = who_of agent_id (Repo.get_agent agent_id r)

abbrev reply_text : Option Json → Text
reply_text none = []
reply_text (some v) = output_to_reply_text (some v)

abbrev some_preview : Text → Option Text
some_preview [] = none
some_preview (c ∷ t) = some (take 280 (c ∷ t))

unfoldable pub kind_of : Text → Kind
kind_of sid =
    if is_review_id sid then review else if is_revision_id sid then revision else contribution

unfoldable pub child_view : Who → Run → ChildView
child_view who child = record {
  run_id = child.id;
  subtask_id = subtask_id_of child;
  agent_name = who.name;
  agent_type = who.type;
  status = child.status;
  error_human = humanize_run_error child.error (some child.status);
  output_preview = some_preview (reply_text child.output);
}

unfoldable pub verdict_of : Option Json → Text → Option Verdict
verdict_of output t =
    if verdict_needs_rework output
    then some rework
    else if includes (text "готово к выпуску") (map lower t)
    then some approved
    else none

abbrev review_or : Option Review → Kind → Review → Option Review
review_or old review r = some r
review_or old _ r = old

-- After the view of a child; a child without a text is passed by.
unfoldable pub add_entry : Who → Run → Text → Parts → Parts
add_entry who child [] parts = parts
add_entry who child (c ∷ t) parts =
    let kind = kind_of (subtask_id_of child) in
    record parts {
      discussion =
          parts.discussion
          ++ record { author = who.name; agent_type = who.type; kind = kind; text = c ∷ t } ∷ [];
      review = review_or parts.review kind (record {
        agent_name = who.name;
        verdict = verdict_of child.output (c ∷ t);
        text = c ∷ t;
      });
    }

unfoldable pub add_child : Who → Run → Parts → Parts
add_child who child parts =
    add_entry who child (reply_text child.output)
      (record parts { children = parts.children ++ child_view who child ∷ [] })

-- The loop; the map keeps the agents that were looked up.
unfoldable pub add_children : Repo → List Run → Map Who → Parts → Parts
add_children r [] agent_names parts = parts
add_children r (child ∷ cs) agent_names parts = elim (Maps.get child.agent_id agent_names) [
  | some who ↦ add_children r cs agent_names (add_child who child parts)
  | none ↦
      let who = find_who r child.agent_id in
      add_children r cs (Maps.set child.agent_id who agent_names) (add_child who child parts)
]

abbrev pub no_parts : Parts
no_parts = record { children = []; discussion = []; review = none }

unfoldable pub get_run_team : Text → Exec System RunTeam
get_run_team run_id = do
  run ← require_known_run run_id
  children ← gets (λ s. Repo.list_child_runs run_id s.repo)
  parts ← gets (λ s. add_children s.repo children [] no_parts)
  let phase = derive_team_phase run children
  pure (record { run = run; phase = phase; phase_label = phase_label phase; parts = parts })

pub record OrgTask : Type 0 where
  pub run_id : Text
  pub status : RunStatus
  pub chat : Bool
  pub prompt : Text
  pub error_human : Option Text

abbrev prompt_140 : Option Json → Text
prompt_140 (some (str t)) = take 140 t
prompt_140 _ = []

-- !r.parentRunId
abbrev is_top_level : Option Text → Bool
is_top_level (some (c ∷ t)) = false
is_top_level _ = true

unfoldable pub org_task : Run → OrgTask
org_task run = record {
  run_id = run.id;
  status = run.status;
  chat = is_true (prop (text "chat") run.input);
  prompt = prompt_140 (prop (text "prompt") run.input);
  error_human = humanize_run_error run.error (some run.status);
}

unfoldable pub list_org_tasks : Text → Exec System (List OrgTask)
list_org_tasks org_id = do
  require_org org_id
  runs ← gets (λ s. Repo.list_runs_by_org org_id none (some 200) s.repo)
  pure (
      map org_task (reverse (take_last 30 (keep (λ (x : Run). is_top_level x.parent_run_id) runs))))

unfoldable pub run_metrics : Text → Exec System RunMetrics
run_metrics run_id = do
  metrics ← gets (λ s. Metrics.run_metrics run_id s.repo)
  or_throw (not_found (text "run " ++ run_id)) metrics

unfoldable pub token_burn : Text → Exec System (Map ℕ)
token_burn org_id = gets λ s. Metrics.token_burn_by_agent org_id s.repo

pub record DocumentRequest : Type 0 where
  pub mime : Text
  pub filename : Option Text
  pub content : Text
  pub base64 : Bool

pub record Upload : Type 0 where
  pub mime : Option Text
  pub filename : Option Text
  pub content : Option Text
  pub base64 : Option Bool

abbrev mime_or_stream : Option Text → Text
mime_or_stream (some (c ∷ t)) = c ∷ t
mime_or_stream _ = text "application/octet-stream"

abbrev base64_or_true : Option Bool → Bool
base64_or_true none = true
base64_or_true (some b) = b

abbrev extracted : Option Text → Result Text → Result (Text × Option Text)
extracted filename (ok t) = ok (t, filename)
extracted filename (err e) = err (validation (message e))

-- extractDocument; the first argument is the document parser, when one is configured.
unfoldable pub extract_document :
    Option (DocumentRequest → Result Text) → Upload → Result (Text × Option Text)
extract_document none args = err (validation (text "document parsing is not configured"))
extract_document (some parser) args = elim args.content [
  | some (c ∷ t) ↦ extracted args.filename (
      parser (record {
        mime = mime_or_stream args.mime;
        filename = args.filename;
        content = c ∷ t;
        base64 = base64_or_true args.base64;
      }))
  | _ ↦ err (validation (text "content is required"))
]

-- subscribe, on the event bus when one is configured; the result names what the returned function keeps.
unfoldable pub subscribe_run : Option InMemoryEventBus → Text → ℕ → Result (ℕ × InMemoryEventBus)
subscribe_run none run_id listener = err (thrown (text "event bus not configured"))
subscribe_run (some bus) run_id listener = ok (subscribe run_id listener bus)
