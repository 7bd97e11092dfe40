-- ===== src/Planner/Valid.antt =====
-- agent-os/src/orchestrator/planner.ts, normalizePlan: the checks of a plan.
use nastroyka_claude.Base.{
  ◌++◌, if◌then◌else◌, text, ◌≡◌, ◌≢◌, refl, sym, ap, subst, ◌∙◌, ◌↔◌, inl, inr, Bool, true, false,
  Option, none, some, Option-cases, List, [], ◌∷◌, All, Text, mem_text, arith,
}
use nastroyka_claude.Base.Sets.{IsDistinct}
use nastroyka_claude.Domain.Json.{prop, Json, null, bool, num, str, arr, obj}
use nastroyka_claude.Domain.Errors.{invalid_plan, Error, Result, ok, err}
use nastroyka_claude.Planner.{
  ◌>>=◌, normalize_field, OrchestrationSubtask, Plan, ids, is_distinct, unknown_dep, check_deps,
  check_plan, normalize_plan, normalize_items,
}

-- A plan with a subtask, without a repeated id, whose dependencies are ids of the plan.
pub record IsValid (plan : Plan) : Type 0 where
  pub inhabited : plan ≢ []
  pub distinct : IsDistinct (ids plan)
  pub known :
      All
        (λ (s : OrchestrationSubtask).
          All (λ (d : Text). mem_text d (ids plan) ≡ true) s.depends_on)
        plan

is_distinct_iff : (ts : List Text) → (is_distinct ts ≡ true) ↔ IsDistinct ts
unfolding is_distinct
is_distinct_iff [] = (λ h. tt, λ h. refl)
is_distinct_iff (t ∷ ts) =
    let rest = is_distinct_iff ts in
    (λ h. (ground (arith, h), rest.0 (ground (arith, h))), λ h. ground (arith, h.0, rest.1 h.1))

Known : List Text → List Text → Type 0
Known known deps = All (λ (d : Text). mem_text d known ≡ true) deps

unknown_dep_iff : (known deps : List Text) → (unknown_dep known deps ≡ none) ↔ Known known deps
unfolding unknown_dep Known
unknown_dep_iff known [] = (λ h. tt, λ h. refl)
unknown_dep_iff known (d ∷ ds) =
    let rest = unknown_dep_iff known ds in
    (λ h. (ground (arith, h), rest.0 (ground (arith, h))), λ h. ground (arith, h.0, rest.1 h.1))

check_deps_known :
    (known : List Text) (s : OrchestrationSubtask) (ss : Plan)
    → unknown_dep known s.depends_on ≡ none
    → check_deps known (s ∷ ss) ≡ check_deps known ss
unfolding check_deps
check_deps_known known s ss e = rw (e, check_deps) refl

check_deps_unknown :
    (known : List Text) (s : OrchestrationSubtask) (ss : Plan) (d : Text)
    → unknown_dep known s.depends_on ≡ some d
    → (e : Error) × (check_deps known (s ∷ ss) ≡ err e)
unfolding check_deps
check_deps_unknown known s ss d e = (
  invalid_plan (text "subtask " ++ (s.id ++ (text " depends on unknown " ++ d))),
  rw (e, check_deps) refl,
)

check_deps_iff :
    (known : List Text) (plan : Plan)
    → (check_deps known plan ≡ ok tt)
      ↔ All (λ (s : OrchestrationSubtask). Known known s.depends_on) plan
unfolding check_deps
check_deps_iff known [] = (λ h. tt, λ h. refl)
check_deps_iff known (s ∷ ss) =
    let rest = check_deps_iff known ss in
    let here = unknown_dep_iff known s.depends_on in
    (
      λ h. elim (Option-cases (unknown_dep known s.depends_on)) [
        | inl e ↦ (here.0 e, rest.0 (sym (check_deps_known known s ss e) ∙ h))
        | inr (d, e) ↦ (let (x, q) = check_deps_unknown known s ss d e in ground (arith, sym q ∙ h))
      ],
      λ h. check_deps_known known s ss (here.1 h.0) ∙ rest.1 h.1,
    )

-- The two checks of a plan that is not empty.
abbrev checked : Bool → Result (Unit {0}) → Plan → Result Plan
checked true (ok _) plan = ok plan
checked true (err e) plan = err e
checked false _ plan = err (invalid_plan (text "duplicate subtask ids"))

check_plan-checked :
    (s : OrchestrationSubtask) (ss : Plan)
    → check_plan (s ∷ ss)
      ≡ checked (is_distinct (ids (s ∷ ss))) (check_deps (ids (s ∷ ss)) (s ∷ ss)) (s ∷ ss)
unfolding check_plan
check_plan-checked s ss = cases (is_distinct (ids (s ∷ ss))) (check_deps (ids (s ∷ ss)) (s ∷ ss))
  where
    cases :
        (b : Bool) (r : Result (Unit {0}))
        → (if b
            then (r >>= λ _. ok (s ∷ ss))
            else err (invalid_plan (text "duplicate subtask ids")))
          ≡ checked b r (s ∷ ss)
    cases true (ok _) = refl
    cases true (err e) = refl
    cases false (ok _) = refl
    cases false (err e) = refl

checked-ok :
    (b : Bool) (r : Result (Unit {0})) (plan out : Plan)
    → checked b r plan ≡ ok out
    → (b ≡ true) × ((r ≡ ok tt) × (out ≡ plan))
checked-ok true (ok tt) plan out h = (refl, (refl, cc h))
checked-ok true (err e) plan out h = ground (arith, h)
checked-ok false r plan out h = ground (arith, h)

accepted : (plan out : Plan) → check_plan plan ≡ ok out → IsValid plan × (out ≡ plan)
unfolding check_plan Known
accepted [] out h = ground (arith, h)
accepted (s ∷ ss) out h =
    let (distinct, (known, same)) =
      checked-ok _ _ (s ∷ ss) out (sym (check_plan-checked s ss) ∙ h) in
    (
      record {
        inhabited = λ e. ground (arith, e);
        distinct = (is_distinct_iff (ids (s ∷ ss))).0 distinct;
        known = (check_deps_iff (ids (s ∷ ss)) (s ∷ ss)).0 known;
      },
      same,
    )

valid_accepted : (plan : Plan) → IsValid plan → check_plan plan ≡ ok plan
unfolding Known
valid_accepted [] v = absurd (v.inhabited refl)
valid_accepted (s ∷ ss) v =
    check_plan-checked s ss
    ∙ ap (λ b. checked b (check_deps (ids (s ∷ ss)) (s ∷ ss)) (s ∷ ss))
        ((is_distinct_iff (ids (s ∷ ss))).1 v.distinct)
    ∙ ap (λ r. checked true r (s ∷ ss)) ((check_deps_iff (ids (s ∷ ss)) (s ∷ ss)).1 v.known)

-- The checks accept a plan, and give it back, exactly when it is valid.
pub check_plan_iff : (plan : Plan) → (check_plan plan ≡ ok plan) ↔ IsValid plan
check_plan_iff plan = (λ h. (accepted plan plan h).0, valid_accepted plan)

items-IsValid : (r : Result Plan) (plan : Plan) → (r >>= check_plan) ≡ ok plan → IsValid plan
items-IsValid (ok ss) plan h =
    let (valid, same) = accepted ss plan h in subst IsValid (sym same) valid
items-IsValid (err e) plan h = ground (arith, h)

field-IsValid : (v : Option Json) (plan : Plan) → normalize_field v ≡ ok plan → IsValid plan
field-IsValid (some (arr xs)) plan h = items-IsValid (normalize_items 0 xs) plan h
field-IsValid (some null) plan h = ground (arith, h)
field-IsValid (some (bool b)) plan h = ground (arith, h)
field-IsValid (some (num t)) plan h = ground (arith, h)
field-IsValid (some (str t)) plan h = ground (arith, h)
field-IsValid (some (obj fs)) plan h = ground (arith, h)
field-IsValid none plan h = ground (arith, h)

-- Whatever JSON a plan is read from, a plan that is accepted is valid.
pub normalize_plan-IsValid :
    (input : Json) (plan : Plan) → normalize_plan input ≡ ok plan → IsValid plan
unfolding normalize_plan
normalize_plan-IsValid input plan h = field-IsValid (prop (text "subtasks") input) plan h
