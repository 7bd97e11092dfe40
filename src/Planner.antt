-- ===== src/Planner.antt =====
-- agent-os/src/orchestrator/planner.ts: plans, their validation, and the topological sort.
pub mod Degrees
pub mod Queue
pub mod Order
pub mod Complete
pub mod Valid
use nastroyka_claude.Base.{
  ℕ, zero, suc, ◌+◌, ◌-◌, ◌<◌, Bool, true, false, not, ◌&&◌, ◌||◌, Option, none, some, List, [],
  ◌∷◌, ◌++◌, map, all, length, drop, take, ◌==◌, Text, text, eq_text, mem_text, decimal, Map,
  if◌then◌else◌,
}
use nastroyka_claude.Base.Maps
use nastroyka_claude.Domain.Json.{Json, Items, nil, cons, null, str, arr, prop, to_text}
use nastroyka_claude.Domain.Types.{AgentType, researcher, writer, analyst, coder, reviewer}
use nastroyka_claude.Domain.Errors.{Result, ok, err, invalid_plan}

pub record OrchestrationSubtask : Type 0 where
  pub id : Text
  pub agent_type : AgentType
  pub prompt : Text
  pub depends_on : List Text

abbrev pub Plan : Type 0
Plan = List OrchestrationSubtask

infixl 10 ◌>>=◌
abbrev ◌>>=◌ : {A B : Type 0} → Result A → (A → Result B) → Result B
ok a >>= f = f a
err e >>= f = err e

-- AGENT_TYPES, without the orchestrator, which a subtask may not name.
unfoldable pub subtask_type : Text → Option AgentType
subtask_type t =
    if eq_text t (text "researcher")
    then some researcher
    else if eq_text t (text "writer")
    then some writer
    else if eq_text t (text "analyst")
    then some analyst
    else if eq_text t (text "coder")
    then some coder
    else if eq_text t (text "reviewer")
    then some reviewer
    else none

abbrev type_of : Option Json → Option AgentType
type_of (some (str t)) = subtask_type t
type_of _ = none

-- s?.agentType inside a template literal
abbrev shown : Option Json → Text
shown none = text "undefined"
shown (some v) = to_text v

-- String(s?.id ?? `s${i + 1}`): null counts as absent.
abbrev text_or : Text → Option Json → Text
text_or d none = d
text_or d (some null) = d
text_or d (some v) = to_text v

texts_of_items : Items → List Text
texts_of_items nil = []
texts_of_items (cons x xs) = to_text x ∷ texts_of_items xs

abbrev texts_of : Option Json → List Text
texts_of (some (arr xs)) = texts_of_items xs
texts_of _ = []

unfoldable pub normalize_subtask : ℕ → Json → Result OrchestrationSubtask
unfolding texts_of_items
normalize_subtask i s =
    let id = text_or (text "s" ++ decimal (i + 1)) (prop (text "id") s) in
    elim (type_of (prop (text "agentType") s)) [
      | none ↦ err (
          invalid_plan (
            text "subtask "
            ++ (id
                ++ (text " has invalid agentType \""
                    ++ (shown (prop (text "agentType") s) ++ text "\"")))))
      | some type ↦ ok (record {
        id = id;
        agent_type = type;
        prompt = text_or [] (prop (text "prompt") s);
        depends_on = texts_of (prop (text "dependsOn") s);
      })
    ]

normalize_items : ℕ → Items → Result Plan
unfolding normalize_subtask
normalize_items i nil = ok []
normalize_items i (cons x xs) = do
  s ← normalize_subtask i x
  ss ← normalize_items (i + 1) xs
  ok (s ∷ ss)

abbrev pub ids : Plan → List Text
ids plan = map (λ (s : OrchestrationSubtask). s.id) plan

-- new Set(ids).size === ids.length
unfoldable pub is_distinct : List Text → Bool
is_distinct [] = true
is_distinct (t ∷ ts) = not (mem_text t ts) && is_distinct ts

-- The first dependency that is no id of the plan.
unknown_dep : List Text → List Text → Option Text
unknown_dep known [] = none
unknown_dep known (d ∷ ds) = if mem_text d known then unknown_dep known ds else some d

unfoldable pub check_deps : List Text → Plan → Result (Unit {0})
unfolding unknown_dep
check_deps known [] = ok tt
check_deps known (s ∷ ss) = elim (unknown_dep known s.depends_on) [
  | none ↦ check_deps known ss
  | some d ↦ err (invalid_plan (text "subtask " ++ (s.id ++ (text " depends on unknown " ++ d))))
]

-- The checks on a list of subtasks.
unfoldable pub check_plan : Plan → Result Plan
unfolding check_deps
check_plan [] = err (invalid_plan (text "plan has no subtasks"))
check_plan (s ∷ ss) =
    if is_distinct (ids (s ∷ ss))
    then (do _ ← check_deps (ids (s ∷ ss)) (s ∷ ss); ok (s ∷ ss))
    else err (invalid_plan (text "duplicate subtask ids"))

abbrev normalize_field : Option Json → Result Plan
normalize_field (some (arr xs)) = do ss ← normalize_items 0 xs; check_plan ss
normalize_field _ = err (invalid_plan (text "missing subtasks array"))

unfoldable pub normalize_plan : Json → Result Plan
unfolding normalize_items
normalize_plan input = normalize_field (prop (text "subtasks") input)

index_of : ℕ → ℕ → Text → Option ℕ
index_of c i [] = none
index_of c i (d ∷ t) = if d == c then some i else index_of c (i + 1) t

last_index_of : ℕ → ℕ → Option ℕ → Text → Option ℕ
last_index_of c i best [] = best
last_index_of c i best (d ∷ t) = last_index_of c (i + 1) (if d == c then some i else best) t

abbrev no_json : Result Text
no_json = err (invalid_plan (text "no JSON object found in model output"))

abbrev between : Text → Option ℕ → Option ℕ → Result Text
between t (some start) (some end) =
    if nastroyka_claude.Base.ltb end start
    then no_json
    else ok (take (end + 1 - start) (drop start t))
between t _ _ = no_json

-- From the first { to the last }.
unfoldable pub extract_json : Text → Result Text
unfolding index_of last_index_of
extract_json t = between t (index_of 123 0 t) (last_index_of 125 0 none t)

-- topoSort. `indegree` and `dependents` are filled by the two loops over the plan.
unfoldable pub fill_ids : Map OrchestrationSubtask → Plan → Map OrchestrationSubtask
fill_ids m [] = m
fill_ids m (s ∷ ss) = fill_ids (Maps.set s.id s m) ss

unfoldable pub by_id : Plan → Map OrchestrationSubtask
unfolding fill_ids
by_id plan = fill_ids [] plan

abbrev pub count_of : Option ℕ → ℕ
count_of none = 0
count_of (some n) = n

abbrev pub list_of : Option (List Text) → List Text
list_of none = []
list_of (some ts) = ts

unfoldable pub zero_degrees : Map ℕ → Plan → Map ℕ
zero_degrees m [] = m
zero_degrees m (s ∷ ss) = zero_degrees (Maps.set s.id 0 m) ss

unfoldable pub add_deps : Text → List Text → Map ℕ × Map (List Text) → Map ℕ × Map (List Text)
add_deps id [] g = g
add_deps id (d ∷ ds) (indegree, dependents) = add_deps id ds (
  Maps.set id (count_of (Maps.get id indegree) + 1) indegree,
  Maps.set d (list_of (Maps.get d dependents) ++ id ∷ []) dependents,
)

unfoldable pub add_edges : Plan → Map ℕ × Map (List Text) → Map ℕ × Map (List Text)
unfolding add_deps
add_edges [] g = g
add_edges (s ∷ ss) g = add_edges ss (add_deps s.id s.depends_on g)

unfoldable pub roots : Map ℕ → List Text
roots [] = []
roots ((id, d) ∷ m) = if d == 0 then id ∷ roots m else roots m

-- One finished subtask: its dependents lose a dependency, and those left with none are queued. The
-- counts never fall below 0: an id stands among the dependents as often as it has dependencies.
unfoldable pub release : List Text → Map ℕ → List Text → Map ℕ × List Text
release [] indegree queue = (indegree, queue)
release (next ∷ ts) indegree queue =
    let left = count_of (Maps.get next indegree) - 1 in
    release ts (Maps.set next left indegree) (if left == 0 then queue ++ next ∷ [] else queue)

abbrev push_found : Option OrchestrationSubtask → Plan → Plan
push_found none order = order
push_found (some s) order = order ++ s ∷ []

-- The `while` loop; each id is queued at most once, so one round for each subtask is enough.
unfoldable pub drain :
    ℕ
    → Map OrchestrationSubtask
    → Map (List Text)
    → Map ℕ
    → (queue : List Text) → (order : Plan) → Plan
unfolding release
drain fuel found dependents indegree [] order = order
drain zero found dependents indegree (id ∷ queue) order = order
drain (suc fuel) found dependents indegree (id ∷ queue) order =
    let (indegree', queue') = release (list_of (Maps.get id dependents)) indegree queue in
    drain fuel found dependents indegree' queue' (push_found (Maps.get id found) order)

unfoldable pub sorted_from : Plan → Plan
unfolding zero_degrees add_edges roots drain by_id
sorted_from plan =
    let (indegree, dependents) = add_edges plan (zero_degrees [] plan, []) in
    drain (length plan) (by_id plan) dependents indegree (roots indegree) []

unfoldable pub topo_sort : Plan → Result Plan
unfolding sorted_from
topo_sort plan =
    if length (sorted_from plan) == length plan
    then ok (sorted_from plan)
    else err (invalid_plan (text "dependency cycle detected"))
