-- ===== src/Examples/Office.antt =====
-- The properties of the event bus, the tools and the control plane's reports at small inputs.
use nastroyka_claude.Base.Maps
use nastroyka_claude.Domain.Json.{Json, str, obj, field, end}
use nastroyka_claude.Domain.Types.{Agent, Org, Run, succeeded}
use nastroyka_claude.Domain.Errors.{ok}
use nastroyka_claude.Repo
use nastroyka_claude.Repo.{Repo, empty}
use nastroyka_claude.System.{System}
use nastroyka_claude.Base.{
  ◌++◌, ap, ◌∙◌, ◌==◌, ◌||◌, if◌then◌else◌, true, eq_text_iff, ℕ, ◌≡◌, refl, false, Option, none,
  some, List, [], ◌∷◌, find, eq_text, Text, text, arith, All, all,
}
use nastroyka_claude.Api
use nastroyka_claude.Api.Routes.{
  is_plain, Keeps, path_text, IsSegment, method_of, parts_of, path_of, route-path_of,
}
use nastroyka_claude.Bus.{
  InMemoryEventBus, empty_bus, add, remove, subscribe, unsubscribe, receivers,
}
use nastroyka_claude.Bus.Sharing.{IsValid, Changed, subscribe-IsValid}
use nastroyka_claude.Bus.Leaving.{resubscribed, unsubscribe-IsValid, unsubscribe_twice}
use nastroyka_claude.Tools.Bodies.{Network}
use nastroyka_claude.Tools.Egress.{Gated, http_request_egress}
use nastroyka_claude.Teams.Templates.{TeamTemplate, team_templates, find_template}
use nastroyka_claude.Control.Catalog.{hire_team}
use nastroyka_claude.Control.Catalog.Hiring.{IsFresh}
use nastroyka_claude.Control.Catalog.Twice.{none_hired, hire_team_twice}
use nastroyka_claude.Control.Phase.{derive_team_phase, phase_label}
use nastroyka_claude.Control.Team.{get_run_team}
use nastroyka_claude.Control.Team.View.{
  all_views, all_entries, all_reviews, newest, get_run_team_lem,
}

empty_bus-IsValid : IsValid empty_bus
unfolding Maps.get
empty_bus-IsValid = record {
  made = λ key ref e. ground (arith, e);
  own = λ key other ref e f. ground (arith, e);
}

subscribe-IsValid_example :
    let out = subscribe (text "r1") 7 empty_bus in
    (Maps.get (text "r1") out.1.listeners ≡ some out.0)
    × Changed (text "r1") (add 7 (receivers (text "r1") empty_bus)) empty_bus out.1
subscribe-IsValid_example = subscribe-IsValid (text "r1") 7 empty_bus empty_bus-IsValid

-- Two listeners of one run.
abbrev busy_bus : InMemoryEventBus
busy_bus = record { listeners = (text "r1", 0) ∷ []; sets = λ ref. 7 ∷ 8 ∷ []; next = 1 }

busy_bus-IsValid : IsValid busy_bus
unfolding Maps.get
busy_bus-IsValid = record {
  made = λ key ref e. ground (arith, e);
  own = λ key other ref e f.
      ground (arith, e, f, eq_text_iff (text "r1") key, eq_text_iff (text "r1") other);
}

listening : Maps.get (text "r1") busy_bus.listeners ≡ some 0
unfolding Maps.get eq_text
listening = refl

unsubscribe-IsValid_example :
    Changed
      (text "r1")
      (remove 7 (receivers (text "r1") busy_bus))
      busy_bus
      (unsubscribe (text "r1") 0 7 busy_bus)
unsubscribe-IsValid_example =
    unsubscribe-IsValid (text "r1") 0 7 busy_bus busy_bus-IsValid listening

nobody : Maps.get (text "r1") empty_bus.listeners ≡ none
unfolding Maps.get
nobody = refl

unsubscribe_twice_example :
    let before = resubscribed (text "r1") 7 8 empty_bus in
    (receivers (text "r1") before ≡ 8 ∷ [])
    × (receivers
          (text "r1")
          (unsubscribe (text "r1") (subscribe (text "r1") 7 empty_bus).0 7 before)
        ≡ [])
unsubscribe_twice_example = unsubscribe_twice (text "r1") 7 8 empty_bus nobody

-- Every URL is on one host, and every request is answered.
abbrev network : Network
network = record {
  hostname = λ url. some (text "api.example.com");
  fetch = λ sent request. ok (record { status = 200; body = text "ok" });
}

abbrev get_input : Json
get_input = obj (field (text "url") (str (text "https://api.example.com/v1")) end)

http_request_egress_example : Gated network get_input (text "example.com" ∷ []) []
http_request_egress_example = http_request_egress network get_input (text "example.com" ∷ []) []

abbrev acme : Org
acme = record { id = text "o1"; name = text "Acme" }

abbrev parent_run : Run
parent_run = record {
  id = text "r1";
  org_id = text "o1";
  agent_id = text "a1";
  status = succeeded;
  input = str (text "task");
  output = none;
  error = none;
  attempts = 1;
  parent_run_id = none;
}

abbrev child_of_r1 : Run
child_of_r1 = record parent_run {
  id = text "r1::s1";
  output = some (str (text "Found it."));
  parent_run_id = some (text "r1");
}

abbrev office : System
office = record {
  repo = record empty {
    orgs = (text "o1", acme) ∷ [];
    runs = (text "r1", parent_run) ∷ (text "r1::s1", child_of_r1) ∷ [];
  };
  deliveries = [];
  events = [];
  model_calls = 0;
  tool_runs = 0;
  remembered = [];
}

stored_parent : Maps.get (text "r1") office.repo.runs ≡ some parent_run
unfolding Maps.get eq_text
stored_parent = refl

get_run_team_lem_example :
    let cs = Repo.list_child_runs (text "r1") office.repo in
    get_run_team (text "r1") office ≡ (
      ok (record {
        run = parent_run;
        phase = derive_team_phase parent_run cs;
        phase_label = phase_label (derive_team_phase parent_run cs);
        parts = record {
          children = all_views office.repo cs;
          discussion = all_entries office.repo cs;
          review = newest none (all_reviews office.repo cs);
        };
      }),
      office,
    )
get_run_team_lem_example = get_run_team_lem (text "r1") parent_run office stored_parent

stored_org : Maps.get (text "o1") office.repo.orgs ≡ some acme
unfolding Maps.get eq_text
stored_org = refl

-- The first team of the catalogue.
abbrev first_template : List TeamTemplate → Option TeamTemplate
first_template ts = find (λ (t : TeamTemplate). eq_text t.id (text "marketing")) ts

abbrev or_blank_team : Option TeamTemplate → TeamTemplate
or_blank_team none = record {
  id = [];
  title = [];
  description = [];
  recommended = false;
  members = [];
}
or_blank_team (some t) = t

abbrev marketing : TeamTemplate
marketing = or_blank_team (first_template team_templates)

found_marketing : find_template (text "marketing") ≡ some marketing
unfolding find_template team_templates eq_text
found_marketing = refl

single : ℕ → Text
single i = i ∷ []

IsFresh-ids : IsFresh single 0 office.repo.agents
unfolding Maps.get single
IsFresh-ids = record {
  unused = λ j above. refl;
  distinct = λ j k differ same. absurd (differ (cc same));
}

hire_team_twice_example :
    let first = hire_team single (text "o1") (text "marketing") office in
    let second = hire_team single (text "o1") (text "marketing") first.1 in
    ((hired : List Agent) × (first.0
        ≡ ok (record { template_id = marketing.id; title = marketing.title; hired = hired })))
    × ((second.0 ≡ ok (none_hired marketing)) × (second.1.repo.agents ≡ first.1.repo.agents))
hire_team_twice_example =
    hire_team_twice single single (text "o1") (text "marketing") acme marketing office stored_org
      found_marketing IsFresh-ids

segment : (c : ℕ) (t : Text) → all is_plain (c ∷ t) ≡ true → IsSegment (c ∷ t)
segment c t h = record { inhabited = λ e. ground (arith, e); plain = h }

abbrev reaction : Api.Route
reaction = Api.react_to_message (text "o1") (text "a1") (text "m1")

reaction_parts : All IsSegment (parts_of reaction)
reaction_parts = (
  segment _ _ refl,
  (
    segment _ _ refl,
    (
      segment _ _ refl,
      (segment _ _ refl, (segment _ _ refl, (segment _ _ refl, (segment _ _ refl, tt)))),
    ),
  ),
)

-- A URL parser for paths that start with a slash: the pathname ends where the query or the hash starts.
before_query : Text → Text
before_query [] = []
before_query (c ∷ t) = let rest = before_query t in if c == 63 || c == 35 then [] else c ∷ rest

before_query-append :
    (s rest : Text) → all is_plain s ≡ true → before_query (s ++ rest) ≡ s ++ before_query rest
unfolding before_query
before_query-append [] rest h = refl
before_query-append (c ∷ s) rest h =
    let here : (c == 63 || c == 35) ≡ false = ground (arith, h) in
    rw here (ap (λ x. c ∷ x) (before_query-append s rest (ground (arith, h))))

before_query-path_text :
    (ss : List Text) → All IsSegment ss → before_query (path_text ss) ≡ path_text ss
unfolding before_query
before_query-path_text [] h = refl
before_query-path_text (s ∷ ss) h =
    ap (λ x. 47 ∷ x)
      (before_query-append s (path_text ss) h.0.plain
        ∙ ap (λ x. s ++ x) (before_query-path_text ss h.1))

before_query-Keeps : Keeps (λ url. some (before_query url))
unfolding Keeps before_query
before_query-Keeps [] h = refl
before_query-Keeps (s ∷ ss) h = ap some (before_query-path_text (s ∷ ss) h)

route-path_of_example :
    Api.route (λ url. some (before_query url)) (method_of reaction) (path_of reaction)
    ≡ some (some reaction)
route-path_of_example =
    route-path_of (λ url. some (before_query url)) before_query-Keeps reaction reaction_parts
