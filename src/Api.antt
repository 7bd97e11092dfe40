-- ===== src/Api.antt =====
-- agent-os/src/api/server.ts: the routes of the HTTP server, the status of its answers and the limit on
-- bodies. What an operation answers is in Control; sockets and event streams are left out.
pub mod Routes
use nastroyka_claude.Base.{
  ℕ, zero, suc, ◌+◌, Bool, true, false, not, ◌&&◌, Option, none, some, List, [], ◌∷◌, ◌++◌, ◌==◌,
  ltb, length, Text, text, eq_text, if◌then◌else◌,
}
use nastroyka_claude.Domain.Errors.{Error, Result, ok, err, not_found, validation}

-- The operation of the control plane that a request asks for, with the ids that its path names.
pub data Route : Type 0 where
  page submit_task create_run create_agent list_team_templates : Route
  extract_document list_dead_letters : Route
  run_events run_metrics run_team get_run retry_run requeue_dead_letter : (run_id : Text) → Route
  list_agents token_burn list_org_tasks : (org_id : Text) → Route
  list_agent_runs get_chat_history send_chat_message clear_chat_history :
      (org_id agent_id : Text) → Route
  react_to_message : (org_id agent_id message_id : Text) → Route
  hire_team : (org_id template_id : Text) → Route

abbrev pub nonblank : Text → List Text
nonblank [] = []
nonblank (c ∷ t) = (c ∷ t) ∷ []

-- path.split('/').filter(Boolean); the first argument is the part read so far.
unfoldable pub segments : Text → Text → List Text
segments part [] = nonblank part
segments part (c ∷ s) =
    let here = c == 47 in
    let rest = segments (if here then [] else part ++ c ∷ []) s in
    if here then nonblank part ++ rest else rest

abbrev pub seg : ℕ → List Text → Option Text
seg n [] = none
seg zero (t ∷ ts) = some t
seg (suc n) (t ∷ ts) = seg n ts

abbrev pub is : Option Text → Text → Bool
is none t = false
is (some s) t = eq_text s t

-- Whether a segment is there.
abbrev pub given : Option Text → Bool
given (some (c ∷ t)) = true
given _ = false

abbrev pub or_blank : Option Text → Text
or_blank none = []
or_blank (some t) = t

-- What follows GET /runs/:id
abbrev pub run_route : Text → Option Text → Route
run_route run_id part =
    if is part (text "events")
    then run_events run_id
    else if is part (text "metrics")
    then run_metrics run_id
    else if is part (text "team")
    then run_team run_id
    else get_run run_id

-- The tests in the order of the handler; the last argument is the split path.
unfoldable pub route_of : (method path : Text) → List Text → Option Route
route_of method path segs =
    let get = eq_text method (text "GET") in
    let post = eq_text method (text "POST") in
    let part = λ (n : ℕ). or_blank (seg n segs) in
    let in_orgs = is (seg 0 segs) (text "orgs") in
    let of_agent = in_orgs && is (seg 2 segs) (text "agents") && given (seg 3 segs) in
    let of_chat = of_agent && is (seg 4 segs) (text "chat") in
    if get && eq_text path (text "/")
    then some page
    else if post && eq_text path (text "/tasks")
    then some submit_task
    else if post && eq_text path (text "/runs")
    then some create_run
    else if get && is (seg 0 segs) (text "runs") && given (seg 1 segs)
    then some (run_route (part 1) (seg 2 segs))
    else if post
        && is (seg 0 segs) (text "runs")
        && given (seg 1 segs)
        && is (seg 2 segs) (text "retry")
    then some (retry_run (part 1))
    else if get && of_agent && is (seg 4 segs) (text "runs")
    then some (list_agent_runs (part 1) (part 3))
    else if post
        && of_agent
        && is (seg 4 segs) (text "messages")
        && given (seg 5 segs)
        && is (seg 6 segs) (text "react")
    then some (react_to_message (part 1) (part 3) (part 5))
    else if of_chat && get
    then some (get_chat_history (part 1) (part 3))
    else if of_chat && post
    then some (send_chat_message (part 1) (part 3))
    else if of_chat && eq_text method (text "DELETE")
    then some (clear_chat_history (part 1) (part 3))
    else if post && eq_text path (text "/agents")
    then some create_agent
    else if get && in_orgs && is (seg 2 segs) (text "agents")
    then some (list_agents (part 1))
    else if get && in_orgs && is (seg 2 segs) (text "token-burn")
    then some (token_burn (part 1))
    else if get && in_orgs && is (seg 2 segs) (text "tasks")
    then some (list_org_tasks (part 1))
    else if get && eq_text path (text "/teams/templates")
    then some list_team_templates
    else if post
        && in_orgs
        && is (seg 2 segs) (text "teams")
        && given (seg 3 segs)
        && is (seg 4 segs) (text "hire")
    then some (hire_team (part 1) (part 3))
    else if post && eq_text path (text "/documents/extract")
    then some extract_document
    else if get && eq_text path (text "/dlq")
    then some list_dead_letters
    else if post && is (seg 0 segs) (text "dlq") && is (seg 2 segs) (text "requeue")
    then some (requeue_dead_letter (part 1))
    else none

abbrev routed : Text → Option Text → Option (Option Route)
routed method none = none
routed method (some path) = some (route_of method path (segments [] path))

-- The route of a request; there is no route where the server answers 404. `pathname` is
-- `new URL(url, 'http://localhost').pathname`: it gives nothing where the constructor throws, and then
-- the handler throws before its `try` and answers nothing.
unfoldable pub route : (pathname : Text → Option Text) → (method url : Text) → Option (Option Route)
route pathname method url = routed method (pathname url)

-- statusForError
unfoldable pub status_for_error : Error → ℕ
status_for_error (not_found what) = 404
status_for_error (validation reason) = 400
status_for_error _ = 500

-- MAX_BODY
abbrev pub max_body : ℕ
max_body = 31457280

-- readBody: the chunks of a body, with the size read so far.
unfoldable pub read_body : ℕ → List Text → Result Text
read_body size [] = ok []
read_body size (chunk ∷ chunks) = elim (ltb max_body (size + length chunk)) [
  | true ↦ err (validation (text "файл слишком большой (лимит ~20МБ) — разбейте его на части"))
  | false ↦ elim (read_body (size + length chunk) chunks) [
    | ok rest ↦ ok (chunk ++ rest)
    | err e ↦ err e
  ]
]
