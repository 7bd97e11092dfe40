-- ===== src/Planner/Complete.antt =====
-- agent-os/src/orchestrator/planner.ts, topoSort: the test of its length at the end.
use nastroyka_claude.Base.{
  ◌≡◌, refl, true, List, [], ◌∷◌, ◌++◌, Text, eq_text, eq_text_iff, mem_text, arith, All,
  Bool-cases, inl, inr,
}
use nastroyka_claude.Base.Sets.{IsDistinct, length-subset-le, mem-append}
use nastroyka_claude.Domain.Errors.{ok}
use nastroyka_claude.Planner.{Plan, ids, sorted_from, topo_sort}
use nastroyka_claude.Planner.Degrees.{pending, deps_in}
use nastroyka_claude.Planner.Queue.{count-not_mem}
use nastroyka_claude.Planner.Order.{Sorted, sorted_from-Sorted, known_once, length-ids}

-- An order of ids of the plan in which each stands after its dependencies.
abbrev pub IsPossible : Plan → List Text → List Text → Type 0
IsPossible plan before [] = Unit
IsPossible plan before (k ∷ ks) =
    (mem_text k (ids plan) ≡ true)
    × All (λ d. mem_text d before ≡ true) (deps_in plan k)
    × IsPossible plan (before ++ k ∷ []) ks

pending-All :
    (done before ds : List Text)
    → ((z : Text) → mem_text z before ≡ true → mem_text z done ≡ true)
    → All (λ d. mem_text d before ≡ true) ds
    → pending done ds ≡ 0
pending-All done before [] inside h = refl
pending-All done before (d ∷ ds) inside h =
    rw (inside d h.0) (omega (arith, pending-All done before ds inside h.1))

possible_done :
    (plan order : Plan) (before ks : List Text)
    → Sorted plan order
    → IsPossible plan before ks
    → ((z : Text) → mem_text z before ≡ true → mem_text z (ids order) ≡ true)
    → (z : Text) → mem_text z ks ≡ true
    → mem_text z (ids order) ≡ true
unfolding mem_text
possible_done plan order before [] sorted h inside z m = cc
possible_done plan order before (k ∷ ks) sorted h inside z m =
    let here : mem_text k (ids order) ≡ true = ground (
      arith,
      sorted.ready k,
      h.0,
      pending-All (ids order) before (deps_in plan k) inside h.1,
      count-not_mem k (ids order),
    ) in
    let grown : (w : Text) → mem_text w (before ++ k ∷ []) ≡ true → mem_text w (ids order) ≡ true =
      λ w e. ground (arith, inside w, mem-append k w before, eq_text_iff w k, here) in
    elim (Bool-cases (eq_text z k)) [
      | inl e ↦ rw ((eq_text_iff z k).0 e) here
      | inr e ↦
          possible_done plan order (before ++ k ∷ []) ks sorted h.2 grown z (ground (arith, e))
    ]

-- If the ids of a plan are distinct and there is any order of them all in which each stands after
-- its dependencies, then the sort returns an order.
pub topo_sort_complete :
    (plan : Plan) (possible : List Text)
    → IsDistinct (ids plan)
    → IsPossible plan [] possible
    → ((z : Text) → mem_text z (ids plan) ≡ true → mem_text z possible ≡ true)
    → (order : Plan) × (topo_sort plan ≡ ok order)
unfolding topo_sort mem_text
topo_sort_complete plan possible distinct h all_in =
    let sorted = sorted_from-Sorted plan in
    let done : (z : Text)
        → mem_text z possible ≡ true
        → mem_text z (ids (sorted_from plan)) ≡ true =
      possible_done plan (sorted_from plan) [] possible sorted h (λ z e. cc) in
    let up =
      length-subset-le (ids plan) (ids (sorted_from plan)) distinct (λ z m. done z (all_in z m)) in
    let down = known_once plan (ids (sorted_from plan)) (λ k. ground (arith, sorted.ready k)) in
    (sorted_from plan, ground (arith, up, down.1, length-ids plan, length-ids (sorted_from plan)))
