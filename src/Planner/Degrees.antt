-- ===== src/Planner/Degrees.antt =====
-- agent-os/src/orchestrator/planner.ts, topoSort: the counts of its map `indegree`.
use nastroyka_claude.Base.{
  ℕ, ◌+◌, ◌≤◌, ◌<◌, ◌≡◌, refl, true, false, List, [], ◌∷◌, ◌++◌, length, Text, eq_text, eq_text_iff,
  eq_text_refl, mem_text, Map, arith, All, if◌then◌else◌, inl, inr, Bool-cases, length-append,
}
use nastroyka_claude.Base.Maps
use nastroyka_claude.Base.Maps.{get-set}
use nastroyka_claude.Planner.{ids, Plan, count_of, list_of, zero_degrees, add_deps, add_edges}

-- How often a text stands in a list.
abbrev pub count : Text → List Text → ℕ
count k [] = 0
count k (x ∷ xs) = (if eq_text x k then 1 else 0) + count k xs

-- How many entries are not done.
abbrev pub pending : List Text → List Text → ℕ
pending done [] = 0
pending done (d ∷ ds) = (if mem_text d done then 0 else 1) + pending done ds

abbrev pub degree : Map ℕ → Text → ℕ
degree g k = count_of (Maps.get k g)

abbrev pub dependents_of : Map (List Text) → Text → List Text
dependents_of m d = list_of (Maps.get d m)

-- The dependencies of an id in a plan.
abbrev pub deps_in : Plan → Text → List Text
deps_in [] k = []
deps_in (s ∷ ss) k = (if eq_text s.id k then s.depends_on else []) ++ deps_in ss k

pub count-append : (k : Text) (xs ys : List Text) → count k (xs ++ ys) ≡ count k xs + count k ys
count-append k [] ys = omega arith
count-append k (x ∷ xs) ys = omega (arith, count-append k xs ys)

pub pending-append :
    (done xs ys : List Text) → pending done (xs ++ ys) ≡ pending done xs + pending done ys
pending-append done [] ys = omega arith
pending-append done (x ∷ xs) ys = omega (arith, pending-append done xs ys)

pub pending-none : (xs : List Text) → pending [] xs ≡ length xs
unfolding mem_text
pending-none [] = refl
pending-none (x ∷ xs) = omega (arith, pending-none xs)

-- A text that is not done and stands in the list n times accounts for n of its entries.
pub count-pending-le :
    (k : Text) (done xs : List Text) → mem_text k done ≡ false → count k xs ≤ pending done xs
count-pending-le k done [] h = omega arith
count-pending-le k done (x ∷ xs) h = elim (Bool-cases (eq_text x k)) [
  | inl e ↦
      rw ((eq_text_iff x k).0 e)
        (rw (eq_text_refl k) (rw h (omega (arith, count-pending-le k done xs h))))
  | inr e ↦ rw e (omega (arith, count-pending-le k done xs h))
]

mem-snoc :
    (k x : Text) (done : List Text)
    → eq_text x k ≡ false
    → mem_text x (done ++ k ∷ []) ≡ mem_text x done
unfolding mem_text
mem-snoc k x [] e = ground (arith, e)
mem-snoc k x (d ∷ done) e = ground (arith, mem-snoc k x done e)

mem-snoc_self : (k : Text) (done : List Text) → mem_text k (done ++ k ∷ []) ≡ true
unfolding mem_text
mem-snoc_self k [] = ground (arith, eq_text_refl k)
mem-snoc_self k (d ∷ done) = ground (arith, mem-snoc_self k done)

pub pending-done :
    (k : Text) (done xs : List Text)
    → mem_text k done ≡ false
    → pending (done ++ k ∷ []) xs + count k xs ≡ pending done xs
pending-done k done [] h = refl
pending-done k done (x ∷ xs) h = elim (Bool-cases (eq_text x k)) [
  | inl e ↦ rw ((eq_text_iff x k).0 e) (
      rw (eq_text_refl k)
        (rw h (rw (mem-snoc_self k done) (omega (arith, pending-done k done xs h)))))
  | inr e ↦ rw e (rw (mem-snoc k x done e) (omega (arith, pending-done k done xs h)))
]

pub pending-zero :
    (done xs : List Text) → pending done xs ≡ 0 → All (λ d. mem_text d done ≡ true) xs
pending-zero done [] h = tt
pending-zero done (x ∷ xs) h = elim (Bool-cases (mem_text x done)) [
  | inl e ↦ (e, pending-zero done xs (ground arith))
  | inr e ↦ absurd (ground arith)
]

-- The edges of a plan.
add_deps_lem :
    (id : Text) (ds : List Text) (g : Map ℕ) (m : Map (List Text)) (k d : Text)
    → let (g', m') = add_deps id ds (g, m) in
      (degree g' k ≡ degree g k + (if eq_text id k then length ds else 0))
      × (count k (dependents_of m' d)
          ≡ count k (dependents_of m d) + (if eq_text id k then count d ds else 0))
unfolding add_deps
add_deps_lem id [] g m k d = ground arith
add_deps_lem id (e ∷ ds) g m k d = ground (
  arith,
  add_deps_lem id ds (Maps.set id (degree g id + 1) g) (Maps.set e (dependents_of m e ++ id ∷ []) m)
      k d,
  get-set id k (degree g id + 1) g,
  get-set e d (dependents_of m e ++ id ∷ []) m,
  eq_text_iff id k,
  eq_text_iff e d,
  count-append k (dependents_of m e) (id ∷ []),
)

add_edges_lem :
    (ss : Plan) (g : Map ℕ) (m : Map (List Text)) (k d : Text)
    → let (g', m') = add_edges ss (g, m) in
      (degree g' k ≡ degree g k + length (deps_in ss k))
      × (count k (dependents_of m' d) ≡ count k (dependents_of m d) + count d (deps_in ss k))
unfolding add_edges
add_edges_lem [] g m k d = ground arith
add_edges_lem (s ∷ ss) g m k d =
    let g' = (add_deps s.id s.depends_on (g, m)).0 in
    let m' = (add_deps s.id s.depends_on (g, m)).1 in
    ground (
      arith,
      add_deps_lem s.id s.depends_on g m k d,
      add_edges_lem ss g' m' k d,
      length-append (if eq_text s.id k then s.depends_on else []) (deps_in ss k),
      count-append d (if eq_text s.id k then s.depends_on else []) (deps_in ss k),
    )

zero_degrees_lem :
    (ss : Plan) (g : Map ℕ) (k : Text) → degree g k ≡ 0 → degree (zero_degrees g ss) k ≡ 0
unfolding zero_degrees
zero_degrees_lem [] g k h = h
zero_degrees_lem (s ∷ ss) g k h =
    zero_degrees_lem ss (Maps.set s.id 0 g) k (ground (arith, get-set s.id k 0 g, h))

-- The maps that `topoSort` starts from.
abbrev pub edges : Plan → Map ℕ × Map (List Text)
edges plan = add_edges plan (zero_degrees [] plan, [])

pub degree-edges : (plan : Plan) (k : Text) → degree (edges plan).0 k ≡ length (deps_in plan k)
unfolding Maps.get
degree-edges plan k =
    omega
      (arith, (add_edges_lem plan (zero_degrees [] plan) [] k k).0, zero_degrees_lem plan [] k refl)

pub count-edges :
    (plan : Plan) (k d : Text) → count k (dependents_of (edges plan).1 d) ≡ count d (deps_in plan k)
unfolding Maps.get
count-edges plan k d = omega (arith, (add_edges_lem plan (zero_degrees [] plan) [] k d).1)

-- An id that has dependencies is one of the plan's.
pub deps_in-known :
    (ss : Plan) (k d : Text) → 0 < count d (deps_in ss k) → mem_text k (ids ss) ≡ true
unfolding mem_text
deps_in-known [] k d h = absurd (omega arith)
deps_in-known (s ∷ ss) k d h = ground (
  arith,
  deps_in-known ss k d,
  count-append d (if eq_text s.id k then s.depends_on else []) (deps_in ss k),
  eq_text_iff s.id k,
  eq_text_iff k s.id,
)
