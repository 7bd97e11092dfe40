-- ===== src/Planner/Queue.antt =====
-- agent-os/src/orchestrator/planner.ts, topoSort: the ids in its queue and in its result.
use nastroyka_claude.Base.{
  ℕ, ◌+◌, ◌-◌, ◌≤◌, ◌<◌, ◌≡◌, refl, Bool, true, false, ◌&&◌, ◌||◌, List, [], ◌∷◌, ◌++◌, ◌==◌, Text,
  eq_text, eq_text_iff, eq_text_refl, mem_text, Map, arith, if◌then◌else◌, inl, inr, Bool-cases,
}
use nastroyka_claude.Base.Maps
use nastroyka_claude.Base.Maps.{get-set}
use nastroyka_claude.Planner.{Plan, list_of, zero_degrees, add_deps, add_edges, roots, release, ids}
use nastroyka_claude.Planner.Degrees.{count, count-append, degree, edges}

-- An id stands among those queued and done once if it is the plan's and waits for nothing, and else
-- not at all.
abbrev pub IsReady : Bool → ℕ → ℕ → Type 0
IsReady known n d = n ≡ (if known && d == 0 then 1 else 0)

abbrev key_list : Map ℕ → List Text
key_list [] = []
key_list ((k, d) ∷ g) = k ∷ key_list g

-- A text is among the keys once, or not at all.
abbrev HasKey : Text → Bool → Map ℕ → Type 0
HasKey j known g = count j (key_list g) ≡ (if known then 1 else 0)

pub count-mem : (k : Text) (xs : List Text) → mem_text k xs ≡ true → 0 < count k xs
unfolding mem_text
count-mem k [] h = cc
count-mem k (x ∷ xs) h = ground (arith, count-mem k xs, eq_text_iff x k, eq_text_iff k x)

pub count-not_mem : (k : Text) (xs : List Text) → mem_text k xs ≡ false → count k xs ≡ 0
unfolding mem_text
count-not_mem k [] h = refl
count-not_mem k (x ∷ xs) h = ground (arith, count-not_mem k xs, eq_text_iff x k, eq_text_iff k x)

count_key-set :
    (j k : Text) (v : ℕ) (g : Map ℕ)
    → count j (key_list (Maps.set k v g))
      ≡ count j (key_list g) + (if mem_text k (key_list g) then 0 else if eq_text k j then 1 else 0)
unfolding Maps.set mem_text
count_key-set j k v [] = ground arith
count_key-set j k v ((i, d) ∷ g) =
    ground (arith, count_key-set j k v g, eq_text_iff i k, eq_text_iff k i)

HasKey-set :
    (j k : Text) (v : ℕ) (known : Bool) (g : Map ℕ)
    → HasKey j known g
    → HasKey j (known || eq_text j k) (Maps.set k v g)
HasKey-set j k v known g h = ground (
  arith,
  count_key-set j k v g,
  count-not_mem k (key_list g),
  count-mem k (key_list g),
  eq_text_iff k j,
  eq_text_iff j k,
)

zero_degrees-HasKey :
    (ss : Plan) (j : Text) (known : Bool) (g : Map ℕ)
    → HasKey j known g
    → HasKey j (known || mem_text j (ids ss)) (zero_degrees g ss)
unfolding zero_degrees mem_text
zero_degrees-HasKey [] j known g h = ground arith
zero_degrees-HasKey (s ∷ ss) j known g h =
    let later =
      zero_degrees-HasKey ss j (known || eq_text j s.id) (Maps.set s.id 0 g)
        (HasKey-set j s.id 0 known g h) in
    ground arith

add_deps-HasKey :
    (j id : Text) (ds : List Text) (known : Bool) (g : Map ℕ) (m : Map (List Text))
    → (eq_text j id ≡ true → known ≡ true)
    → HasKey j known g
    → HasKey j known (add_deps id ds (g, m)).0
unfolding add_deps
add_deps-HasKey j id [] known g m in_plan h = h
add_deps-HasKey j id (d ∷ ds) known g m in_plan h =
    let b = HasKey-set j id (degree g id + 1) known g h in
    add_deps-HasKey j id ds known (Maps.set id (degree g id + 1) g)
      (Maps.set d (list_of (Maps.get d m) ++ id ∷ []) m) in_plan (ground (arith, in_plan))

add_edges-HasKey :
    (ss : Plan) (j : Text) (known : Bool) (g : Map ℕ) (m : Map (List Text))
    → (mem_text j (ids ss) ≡ true → known ≡ true)
    → HasKey j known g
    → HasKey j known (add_edges ss (g, m)).0
unfolding add_edges mem_text
add_edges-HasKey [] j known g m in_plan h = h
add_edges-HasKey (s ∷ ss) j known g m in_plan h =
    add_edges-HasKey ss j known (add_deps s.id s.depends_on (g, m)).0
      (add_deps s.id s.depends_on (g, m)).1 (λ e. in_plan (ground arith))
      (add_deps-HasKey j s.id s.depends_on known g m (λ e. in_plan (ground arith)) h)

roots_lem :
    (k : Text) (known : Bool) (g : Map ℕ)
    → HasKey k known g
    → IsReady known (count k (roots g)) (degree g k)
unfolding roots Maps.get
roots_lem k true [] h = absurd (omega arith)
roots_lem k false [] h = refl
roots_lem k known ((i, d) ∷ g) h = elim (Bool-cases (eq_text i k)) [
  | inl e ↦ ground (arith, e, roots_lem k false g)
  | inr e ↦ ground (arith, e, roots_lem k known g)
]

-- At the start the queue holds the plan's ids that wait for nothing, each once.
pub roots-IsReady :
    (plan : Plan) (k : Text)
    → IsReady (mem_text k (ids plan)) (count k (roots (edges plan).0)) (degree (edges plan).0 k)
roots-IsReady plan k = roots_lem k (mem_text k (ids plan)) (edges plan).0 (
    add_edges-HasKey plan k (mem_text k (ids plan)) (zero_degrees [] plan) [] (λ e. e)
      (zero_degrees-HasKey plan k false [] refl))

-- One dependent released.
abbrev left_of : Text → Map ℕ → ℕ
left_of t g = degree g t - 1

abbrev queue_of : Text → Map ℕ → List Text → List Text
queue_of t g queue = if left_of t g == 0 then queue ++ t ∷ [] else queue

release_step :
    (t : Text) (ts : List Text) (g : Map ℕ) (queue : List Text) (k : Text) (known : Bool)
    (done : List Text)
    → count k (t ∷ ts) ≤ degree g k
    → (0 < count k (t ∷ ts) → known ≡ true)
    → IsReady known (count k queue + count k done) (degree g k)
    → let g' = Maps.set t (left_of t g) g in
      (count k ts ≤ degree g' k)
      × (degree g' k + (if eq_text t k then 1 else 0) ≡ degree g k)
      × IsReady known (count k (queue_of t g queue) + count k done) (degree g' k)
release_step t ts g queue k known done le in_plan h = elim (Bool-cases (eq_text t k)) [
  | inl e ↦
      let same : t ≡ k = (eq_text_iff t k).0 e in
      let written : degree (Maps.set t (left_of t g) g) k ≡ left_of k g =
        rw same (ground (arith, get-set k k (left_of k g) g, eq_text_refl k)) in
      ground (arith, e, written, same, count-append k queue (t ∷ []))
  | inr e ↦
      let kept : degree (Maps.set t (left_of t g) g) k ≡ degree g k =
        ground (arith, get-set t k (left_of t g) g, e) in
      ground (arith, e, kept, count-append k queue (t ∷ []))
]

-- Releasing the dependents of an id that is done takes one from a degree for each time that it
-- stands among them; those that get to 0 are queued.
pub release_lem :
    (ts : List Text) (g : Map ℕ) (queue : List Text) (k : Text) (known : Text → Bool)
    (done : List Text)
    → ((k : Text) → count k ts ≤ degree g k)
    → ((k : Text) → 0 < count k ts → known k ≡ true)
    → ((k : Text) → IsReady (known k) (count k queue + count k done) (degree g k))
    → let (g', queue') = release ts g queue in
      (degree g' k + count k ts ≡ degree g k)
      × IsReady (known k) (count k queue' + count k done) (degree g' k)
unfolding release
release_lem [] g queue k known done le in_plan h = (omega arith, h k)
release_lem (t ∷ ts) g queue k known done le in_plan h =
    let step = λ (j : Text). release_step t ts g queue j (known j) done (le j) (in_plan j) (h j) in
    let later =
      release_lem ts (Maps.set t (left_of t g) g) (queue_of t g queue) k known done
        (λ j. (step j).0) (λ j pos. in_plan j (omega arith)) (λ j. (step j).2) in
    (omega (arith, later.0, (step k).1), later.1)
