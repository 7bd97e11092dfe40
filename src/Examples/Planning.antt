-- ===== src/Examples/Planning.antt =====
-- The properties of plans, planners, models, memory and metrics at small inputs.
use nastroyka_claude.Base.{
  ◌≤◌, ◌≡◌, ◌↔◌, refl, true, false, none, some, List, [], ◌∷◌, All, length, mem_text, eq_text, Text,
  text, arith,
}
use nastroyka_claude.Base.Maps
use nastroyka_claude.Base.Sets.{IsDistinct}
use nastroyka_claude.Domain.Json.{str, to_text}
use nastroyka_claude.Domain.Types.{analyst, ModelTurn, long_term, researcher, writer}
use nastroyka_claude.Domain.Errors.{Error, ok, err}
use nastroyka_claude.Repo.{Repo, empty}
use nastroyka_claude.Repo
use nastroyka_claude.Runtime.Deps.{ModelRequest, RecallQuery}
use nastroyka_claude.Planner.{
  OrchestrationSubtask, Plan, ids, topo_sort, check_plan, normalize_plan, subtask_type, is_distinct,
}
use nastroyka_claude.Planner.Order.{IsOrdered, topo_sort-IsOrdered}
use nastroyka_claude.Planner.Complete.{IsPossible, topo_sort_complete}
use nastroyka_claude.Planner.Valid.{IsValid, check_plan_iff, normalize_plan-IsValid}
use nastroyka_claude.Models.{GatewayConfig, order, gateway}
use nastroyka_claude.Models.Gateway.{AllSilent, FirstAnswer, gateway_lem}
use nastroyka_claude.Models.Fixed.{failing_model, echo_model}
use nastroyka_claude.Models.Planners.{heuristic_subtasks}
use nastroyka_claude.Memory.{recall, or_5}
use nastroyka_claude.Memory.Recall.{MayShow, recall-MayShow}
use nastroyka_claude.Metrics.{token_burn_by_agent, or_0}
use nastroyka_claude.Metrics.Burn.{spent, of_agent, token_burn-spent}

abbrev collect : OrchestrationSubtask
collect = record {
  id = text "a";
  agent_type = researcher;
  prompt = text "Collect";
  depends_on = [];
}

abbrev compose : OrchestrationSubtask
compose = record {
  id = text "b";
  agent_type = writer;
  prompt = text "Write";
  depends_on = text "a" ∷ [];
}

-- The plan names the dependent subtask first.
abbrev reversed_plan : Plan
reversed_plan = compose ∷ collect ∷ []

abbrev sorted_plan : Plan
sorted_plan = collect ∷ compose ∷ []

sorts : topo_sort reversed_plan ≡ ok sorted_plan
unfolding topo_sort eq_text Maps.set Maps.get
sorts = refl

topo_sort-IsOrdered_example :
    IsOrdered [] sorted_plan
    × IsDistinct (ids sorted_plan)
    × ((z : Text) → mem_text z (ids sorted_plan) ≡ mem_text z (ids reversed_plan))
topo_sort-IsOrdered_example = topo_sort-IsOrdered reversed_plan sorted_plan sorts

abbrev possible_order : List Text
possible_order = text "a" ∷ text "b" ∷ []

is_possible : IsPossible reversed_plan [] possible_order
unfolding mem_text eq_text
is_possible = (refl, tt, (refl, (refl, tt), tt))

IsDistinct-ids : IsDistinct (ids reversed_plan)
unfolding mem_text eq_text
IsDistinct-ids = (refl, (refl, tt))

all_possible : (z : Text) → mem_text z (ids reversed_plan) ≡ true → mem_text z possible_order ≡ true
unfolding mem_text
all_possible z h = ground (arith, h)

topo_sort_complete_example : (order : Plan) × (topo_sort reversed_plan ≡ ok order)
topo_sort_complete_example =
    topo_sort_complete reversed_plan possible_order IsDistinct-ids is_possible all_possible

check_plan_iff_example : (check_plan reversed_plan ≡ ok reversed_plan) ↔ IsValid reversed_plan
check_plan_iff_example = check_plan_iff reversed_plan

abbrev short_chain : Plan
short_chain =
    record {
      id = text "research";
      agent_type = researcher;
      prompt = text "Собери информацию по задаче: t";
      depends_on = [];
    }
    ∷ record {
      id = text "analyze";
      agent_type = analyst;
      prompt = text "Проанализируй собранное по задаче: t";
      depends_on = text "research" ∷ [];
    }
    ∷ record {
      id = text "write";
      agent_type = writer;
      prompt = text "Напиши итоговый результат по задаче: t";
      depends_on = text "analyze" ∷ [];
    }
    ∷ []

normalized : normalize_plan (heuristic_subtasks (text "t")) ≡ ok short_chain
unfolding heuristic_subtasks normalize_plan eq_text subtask_type check_plan is_distinct mem_text
    to_text
normalized = refl

normalize_plan-IsValid_example : IsValid short_chain
normalize_plan-IsValid_example =
    normalize_plan-IsValid (heuristic_subtasks (text "t")) short_chain normalized

abbrev two_providers : GatewayConfig
two_providers = record {
  providers =
      (text "primary", λ calls position. failing_model (text "down") calls)
      ∷ (text "local", λ calls position. echo_model calls)
      ∷ [];
  route = λ request. text "primary";
  failover = text "secondary" ∷ text "local" ∷ [];
}

abbrev small_request : ModelRequest
small_request = record { system = text "s"; messages = []; tools = []; web_search = false }

gateway_lem_example :
    ((turn : ModelTurn)
      → (gateway two_providers 0 small_request ≡ ok turn)
        ↔ FirstAnswer two_providers.providers 0 small_request turn 0
            (order two_providers small_request))
    × (((e : Error) × (gateway two_providers 0 small_request ≡ err e))
        ↔ AllSilent two_providers.providers 0 small_request 0 (order two_providers small_request))
gateway_lem_example = gateway_lem two_providers 0 small_request

abbrev remembered_repo : Repo
remembered_repo = record empty {
  memories =
      record {
        agent_id = text "a1";
        kind = long_term;
        content = str (text "solar panels in Spain");
        run_id = none;
        created_at = some 7;
      }
      ∷ [];
}

abbrev solar_query : RecallQuery
solar_query = record {
  kinds = some (long_term ∷ []);
  query = some (text "Solar power");
  run_id = none;
  limit = some 5;
}

recall-MayShow_example :
    All (MayShow (text "a1") solar_query) (recall remembered_repo (text "a1") solar_query)
    × (length (recall remembered_repo (text "a1") solar_query) ≤ or_5 solar_query.limit)
recall-MayShow_example = recall-MayShow (text "a1") solar_query remembered_repo

token_burn-spent_example :
    or_0 (Maps.get (text "a1") (token_burn_by_agent (text "o1") remembered_repo))
    ≡ spent remembered_repo
        (of_agent (text "a1") (Repo.list_runs_by_org (text "o1") none none remembered_repo))
token_burn-spent_example = token_burn-spent (text "o1") (text "a1") remembered_repo
