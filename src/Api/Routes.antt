-- ===== src/Api/Routes.antt =====
-- agent-os/src/api/server.ts: the requests that clients send for each operation.
use nastroyka_claude.Base.{
  Option, leb, ◌&&◌, ◌||◌, ℕ, ◌≡◌, ◌≢◌, refl, sym, ap, ◌∙◌, Bool, true, false, not, some, List, [],
  ◌∷◌, ◌++◌, append_assoc, append-nil, all, All, ◌==◌, Text, text, eq_text, arith,
}
use nastroyka_claude.Api

abbrev pub not_slash : ℕ → Bool
not_slash c = not (c == 47)

-- Letters and digits of ASCII, the dash, the underscore and the colon: URL parsing keeps them in a path.
abbrev pub is_plain : ℕ → Bool
is_plain c =
    (leb 97 c && leb c 122)
    || (leb 65 c && leb c 90)
    || (leb 48 c && leb c 58)
    || c == 45
    || c == 95

-- A part of a path: not empty, and of plain characters.
pub record IsSegment (t : Text) : Type 0 where
  pub inhabited : t ≢ []
  pub plain : all is_plain t ≡ true

plain-not_slash : (t : Text) → all is_plain t ≡ true → all not_slash t ≡ true
plain-not_slash [] h = refl
plain-not_slash (c ∷ t) h = ground (arith, h, plain-not_slash t (ground (arith, h)))

-- A path with these parts.
abbrev pub path_text : List Text → Text
path_text [] = []
path_text (s ∷ ss) = 47 ∷ s ++ path_text ss

-- The method and the parts of the path of a request for an operation.
abbrev pub method_of : Api.Route → Text
method_of Api.page = text "GET"
method_of Api.submit_task = text "POST"
method_of Api.create_run = text "POST"
method_of Api.create_agent = text "POST"
method_of Api.list_team_templates = text "GET"
method_of Api.extract_document = text "POST"
method_of Api.list_dead_letters = text "GET"
method_of (Api.run_events r) = text "GET"
method_of (Api.run_metrics r) = text "GET"
method_of (Api.run_team r) = text "GET"
method_of (Api.get_run r) = text "GET"
method_of (Api.retry_run r) = text "POST"
method_of (Api.requeue_dead_letter r) = text "POST"
method_of (Api.list_agents o) = text "GET"
method_of (Api.token_burn o) = text "GET"
method_of (Api.list_org_tasks o) = text "GET"
method_of (Api.list_agent_runs o a) = text "GET"
method_of (Api.get_chat_history o a) = text "GET"
method_of (Api.send_chat_message o a) = text "POST"
method_of (Api.clear_chat_history o a) = text "DELETE"
method_of (Api.react_to_message o a m) = text "POST"
method_of (Api.hire_team o t) = text "POST"

abbrev pub parts_of : Api.Route → List Text
parts_of Api.page = []
parts_of Api.submit_task = text "tasks" ∷ []
parts_of Api.create_run = text "runs" ∷ []
parts_of Api.create_agent = text "agents" ∷ []
parts_of Api.list_team_templates = text "teams" ∷ text "templates" ∷ []
parts_of Api.extract_document = text "documents" ∷ text "extract" ∷ []
parts_of Api.list_dead_letters = text "dlq" ∷ []
parts_of (Api.run_events r) = text "runs" ∷ r ∷ text "events" ∷ []
parts_of (Api.run_metrics r) = text "runs" ∷ r ∷ text "metrics" ∷ []
parts_of (Api.run_team r) = text "runs" ∷ r ∷ text "team" ∷ []
parts_of (Api.get_run r) = text "runs" ∷ r ∷ []
parts_of (Api.retry_run r) = text "runs" ∷ r ∷ text "retry" ∷ []
parts_of (Api.requeue_dead_letter r) = text "dlq" ∷ r ∷ text "requeue" ∷ []
parts_of (Api.list_agents o) = text "orgs" ∷ o ∷ text "agents" ∷ []
parts_of (Api.token_burn o) = text "orgs" ∷ o ∷ text "token-burn" ∷ []
parts_of (Api.list_org_tasks o) = text "orgs" ∷ o ∷ text "tasks" ∷ []
parts_of (Api.list_agent_runs o a) = text "orgs" ∷ o ∷ text "agents" ∷ a ∷ text "runs" ∷ []
parts_of (Api.get_chat_history o a) = text "orgs" ∷ o ∷ text "agents" ∷ a ∷ text "chat" ∷ []
parts_of (Api.send_chat_message o a) = text "orgs" ∷ o ∷ text "agents" ∷ a ∷ text "chat" ∷ []
parts_of (Api.clear_chat_history o a) = text "orgs" ∷ o ∷ text "agents" ∷ a ∷ text "chat" ∷ []
parts_of (Api.react_to_message o a m) =
    text "orgs" ∷ o ∷ text "agents" ∷ a ∷ text "messages" ∷ m ∷ text "react" ∷ []
parts_of (Api.hire_team o t) = text "orgs" ∷ o ∷ text "teams" ∷ t ∷ text "hire" ∷ []

abbrev pub or_root : Text → Text
or_root [] = text "/"
or_root (c ∷ t) = c ∷ t

abbrev pub path_of : Api.Route → Text
path_of r = or_root (path_text (parts_of r))

segments-part :
    (part s rest : Text)
    → all not_slash s ≡ true
    → Api.segments part (s ++ rest) ≡ Api.segments (part ++ s) rest
unfolding Api.segments
segments-part part [] rest h = ap (λ p. Api.segments p rest) (sym (append-nil part))
segments-part part (c ∷ s) rest h =
    let here : (c == 47) ≡ false = ground (arith, h) in
    let later : all not_slash s ≡ true = ground (arith, h) in
    rw here (
      segments-part (part ++ c ∷ []) s rest later
      ∙ ap (λ p. Api.segments p rest) (append_assoc part (c ∷ []) s))

nonblank-segment : (s : Text) (ss : List Text) → s ≢ [] → Api.nonblank s ++ ss ≡ s ∷ ss
nonblank-segment [] ss h = absurd (h refl)
nonblank-segment (c ∷ s) ss h = refl

segments-path_text :
    (part : Text) (ss : List Text)
    → All IsSegment ss
    → Api.segments part (path_text ss) ≡ Api.nonblank part ++ ss
unfolding Api.segments
segments-path_text part [] h = sym (append-nil (Api.nonblank part))
segments-path_text part (s ∷ ss) h =
    ap (λ x. Api.nonblank part ++ x)
      (segments-part [] s (path_text ss) (plain-not_slash s h.0.plain)
        ∙ (segments-path_text s ss h.1 ∙ nonblank-segment s ss h.0.inhabited))

segments-path_of :
    (ss : List Text) → All IsSegment ss → Api.segments [] (or_root (path_text ss)) ≡ ss
unfolding Api.segments
segments-path_of [] h = refl
segments-path_of (s ∷ ss) h = segments-path_text [] (s ∷ ss) h

-- The first test that fits the parts of an operation's path is its own.
matched :
    (r : Api.Route)
    → All IsSegment (parts_of r)
    → Api.route_of (method_of r) (path_of r) (parts_of r) ≡ some r
unfolding Api.route_of eq_text
matched Api.page h = refl
matched Api.submit_task h = refl
matched Api.create_run h = refl
matched Api.create_agent h = refl
matched Api.list_team_templates h = refl
matched Api.extract_document h = refl
matched Api.list_dead_letters h = refl
matched (Api.run_events []) h = absurd (h.1.0.inhabited refl)
matched (Api.run_events (c0 ∷ r)) h = refl
matched (Api.run_metrics []) h = absurd (h.1.0.inhabited refl)
matched (Api.run_metrics (c0 ∷ r)) h = refl
matched (Api.run_team []) h = absurd (h.1.0.inhabited refl)
matched (Api.run_team (c0 ∷ r)) h = refl
matched (Api.get_run []) h = absurd (h.1.0.inhabited refl)
matched (Api.get_run (c0 ∷ r)) h = refl
matched (Api.retry_run []) h = absurd (h.1.0.inhabited refl)
matched (Api.retry_run (c0 ∷ r)) h = refl
matched (Api.requeue_dead_letter []) h = absurd (h.1.0.inhabited refl)
matched (Api.requeue_dead_letter (c0 ∷ r)) h = refl
matched (Api.list_agents []) h = absurd (h.1.0.inhabited refl)
matched (Api.list_agents (c0 ∷ o)) h = refl
matched (Api.token_burn []) h = absurd (h.1.0.inhabited refl)
matched (Api.token_burn (c0 ∷ o)) h = refl
matched (Api.list_org_tasks []) h = absurd (h.1.0.inhabited refl)
matched (Api.list_org_tasks (c0 ∷ o)) h = refl
matched (Api.list_agent_runs [] a) h = absurd (h.1.0.inhabited refl)
matched (Api.list_agent_runs (c0 ∷ o) []) h = absurd (h.1.1.1.0.inhabited refl)
matched (Api.list_agent_runs (c0 ∷ o) (c1 ∷ a)) h = refl
matched (Api.get_chat_history [] a) h = absurd (h.1.0.inhabited refl)
matched (Api.get_chat_history (c0 ∷ o) []) h = absurd (h.1.1.1.0.inhabited refl)
matched (Api.get_chat_history (c0 ∷ o) (c1 ∷ a)) h = refl
matched (Api.send_chat_message [] a) h = absurd (h.1.0.inhabited refl)
matched (Api.send_chat_message (c0 ∷ o) []) h = absurd (h.1.1.1.0.inhabited refl)
matched (Api.send_chat_message (c0 ∷ o) (c1 ∷ a)) h = refl
matched (Api.clear_chat_history [] a) h = absurd (h.1.0.inhabited refl)
matched (Api.clear_chat_history (c0 ∷ o) []) h = absurd (h.1.1.1.0.inhabited refl)
matched (Api.clear_chat_history (c0 ∷ o) (c1 ∷ a)) h = refl
matched (Api.react_to_message [] a m) h = absurd (h.1.0.inhabited refl)
matched (Api.react_to_message (c0 ∷ o) [] m) h = absurd (h.1.1.1.0.inhabited refl)
matched (Api.react_to_message (c0 ∷ o) (c1 ∷ a) []) h = absurd (h.1.1.1.1.1.0.inhabited refl)
matched (Api.react_to_message (c0 ∷ o) (c1 ∷ a) (c2 ∷ m)) h = refl
matched (Api.hire_team [] x) h = absurd (h.1.0.inhabited refl)
matched (Api.hire_team (c0 ∷ o) []) h = absurd (h.1.1.1.0.inhabited refl)
matched (Api.hire_team (c0 ∷ o) (c1 ∷ x)) h = refl

-- What URL parsing does to a path of plain parts: it is the pathname as it stands.
unfoldable pub Keeps : (Text → Option Text) → Type 0
Keeps pathname =
    (ss : List Text)
    → All IsSegment ss
    → pathname (or_root (path_text ss)) ≡ some (or_root (path_text ss))

-- Where URL parsing keeps paths of plain parts, the request for an operation whose ids are plain texts
-- that are not empty is routed to that operation with those ids: no test that stands before takes it.
pub route-path_of :
    (pathname : Text → Option Text)
    → Keeps pathname
    → (r : Api.Route) → All IsSegment (parts_of r)
    → Api.route pathname (method_of r) (path_of r) ≡ some (some r)
unfolding Api.route Keeps
route-path_of pathname keeps r h =
    ap (Api.routed (method_of r)) (keeps (parts_of r) h)
    ∙ ap some (
        ap (Api.route_of (method_of r) (path_of r)) (segments-path_of (parts_of r) h) ∙ matched r h)
