-- ===== src/Planner/Order.antt =====
-- agent-os/src/orchestrator/planner.ts, topoSort: the order that it gives.
use nastroyka_claude.Base.{
  ℕ, zero, suc, ◌+◌, ◌≤◌, ◌≡◌, refl, sym, subst, true, false, Option, some, List, [], ◌∷◌, ◌++◌,
  length, Text, eq_text, eq_text_iff, eq_text_refl, mem_text, Map, arith, All, if◌then◌else◌, inl,
  inr, Bool-cases, append_assoc, length-append,
}
use mathlib.Core.List.{append-nil, map-append}
use nastroyka_claude.Base.Maps
use nastroyka_claude.Base.Maps.{get-set}
use nastroyka_claude.Base.Sets.{IsDistinct, length-subset-le, subset-same_length}
use nastroyka_claude.Domain.Errors.{ok}
use nastroyka_claude.Planner.{
  OrchestrationSubtask, Plan, ids, fill_ids, by_id, release, roots, push_found, drain, sorted_from,
  topo_sort,
}
use nastroyka_claude.Planner.Degrees.{
  count, count-append, pending, pending-append, pending-none, count-pending-le, pending-done,
  pending-zero, degree, dependents_of, deps_in, deps_in-known, edges, degree-edges, count-edges,
}
use nastroyka_claude.Planner.Queue.{IsReady, count-mem, roots-IsReady, release_lem}

-- Every subtask stands after the ids that it depends on, of which some stand before the list.
abbrev pub IsOrdered : List Text → Plan → Type 0
IsOrdered before [] = Unit
IsOrdered before (s ∷ ss) =
    All (λ d. mem_text d before ≡ true) s.depends_on × IsOrdered (before ++ s.id ∷ []) ss

IsOrdered-snoc :
    (before : List Text) (ss : Plan) (s : OrchestrationSubtask)
    → IsOrdered before ss
    → All (λ d. mem_text d (before ++ ids ss) ≡ true) s.depends_on
    → IsOrdered before (ss ++ s ∷ [])
IsOrdered-snoc before [] s h k = (rw (append-nil before) at k, tt)
IsOrdered-snoc before (t ∷ ss) s h k = (
  h.0,
  IsOrdered-snoc (before ++ t.id ∷ []) ss s h.1 (rw (append_assoc before (t.id ∷ []) (ids ss)) k),
)

-- The subtask stored under an id of the plan is one of that id.
record Stored (ss : Plan) (k : Text) (found : Option OrchestrationSubtask) : Type 0 where
  subtask : OrchestrationSubtask
  is_found : found ≡ some subtask
  has_id : subtask.id ≡ k
  deps_le : (done : List Text) → pending done subtask.depends_on ≤ pending done (deps_in ss k)

fill_ids-other :
    (ss : Plan) (m : Map OrchestrationSubtask) (k : Text)
    → mem_text k (ids ss) ≡ false
    → Maps.get k (fill_ids m ss) ≡ Maps.get k m
unfolding fill_ids mem_text
fill_ids-other [] m k h = refl
fill_ids-other (s ∷ ss) m k h = ground (
  arith,
  fill_ids-other ss (Maps.set s.id s m) k,
  get-set s.id k s m,
  eq_text_iff k s.id,
  eq_text_iff s.id k,
)

fill_ids-Stored :
    (ss : Plan) (m : Map OrchestrationSubtask) (k : Text)
    → mem_text k (ids ss) ≡ true
    → Stored ss k (Maps.get k (fill_ids m ss))
unfolding fill_ids mem_text
fill_ids-Stored [] m k h = cc
fill_ids-Stored (s ∷ ss) m k h = elim (Bool-cases (mem_text k (ids ss))) [
  | inl e ↦
      let later = fill_ids-Stored ss (Maps.set s.id s m) k e in
      record {
        subtask = later.subtask;
        is_found = later.is_found;
        has_id = later.has_id;
        deps_le = λ done. omega (
          arith,
          later.deps_le done,
          pending-append done (if eq_text s.id k then s.depends_on else []) (deps_in ss k),
        );
      }
  | inr e ↦
      let same : s.id ≡ k = ground (arith, e, eq_text_iff k s.id) in
      record {
        subtask = s;
        is_found = ground (
          arith,
          e,
          fill_ids-other ss (Maps.set s.id s m) k,
          get-set s.id k s m,
          eq_text_iff s.id k,
        );
        has_id = same;
        deps_le = λ done.
            rw ((eq_text_iff s.id k).1 same)
              (omega (arith, pending-append done s.depends_on (deps_in ss k)));
      }
]

by_id-Stored :
    (plan : Plan) (k : Text)
    → mem_text k (ids plan) ≡ true
    → Stored plan k (Maps.get k (by_id plan))
unfolding by_id
by_id-Stored plan k h = fill_ids-Stored plan [] k h

-- The state of the loop, with the ids that have been taken from the queue.
record Inv (plan : Plan) (done : List Text) (g : Map ℕ) (queue : List Text) : Type 0 where
  degrees : (k : Text) → degree g k ≡ pending done (deps_in plan k)
  ready : (k : Text) → IsReady (mem_text k (ids plan)) (count k queue + count k done) (degree g k)

-- What the loop gives.
pub record Sorted (plan order : Plan) : Type 0 where
  pub ordered : IsOrdered [] order
  pub ready :
      (k : Text)
      → IsReady (mem_text k (ids plan)) (count k (ids order)) (pending (ids order) (deps_in plan k))

pub length-ids : (ss : Plan) → length (ids ss) ≡ length ss
length-ids [] = refl
length-ids (s ∷ ss) = omega (arith, length-ids ss)

module _ (plan : Plan) where
  head_ready :
      (done : List Text) (g : Map ℕ) (id : Text) (queue : List Text)
      → Inv plan done g (id ∷ queue)
      → (mem_text id (ids plan) ≡ true) × (degree g id ≡ 0) × (mem_text id done ≡ false)
  head_ready done g id queue inv = ground (arith, inv.ready id, eq_text_refl id, count-mem id done)

  next_Inv :
      (done : List Text) (g : Map ℕ) (id : Text) (queue : List Text)
      → Inv plan done g (id ∷ queue)
      → let (g', queue') = release (dependents_of (edges plan).1 id) g queue in
        Inv plan (done ++ id ∷ []) g' queue'
  next_Inv done g id queue inv =
      let head = head_ready done g id queue inv in
      let step = λ (k : Text).
        release_lem (dependents_of (edges plan).1 id) g queue k (λ j. mem_text j (ids plan))
          (done ++ id ∷ [])
          (λ j. omega (
            arith,
            count-edges plan j id,
            count-pending-le id done (deps_in plan j) head.2,
            inv.degrees j,
          ))
          (λ j pos. deps_in-known plan j id (omega (arith, count-edges plan j id)))
          (λ j. omega (arith, inv.ready j, count-append j done (id ∷ []))) in
      record {
        degrees = λ k. omega (
          arith,
          (step k).0,
          count-edges plan k id,
          pending-done id done (deps_in plan k) head.2,
          inv.degrees k,
        );
        ready = λ k. (step k).1;
      }

  take_next :
      (order : Plan) (g : Map ℕ) (id : Text) (queue : List Text) (s : OrchestrationSubtask)
      → Inv plan (ids order) g (id ∷ queue)
      → Stored plan id (some s)
      → IsOrdered [] order
      → IsOrdered [] (order ++ s ∷ []) × (ids (order ++ s ∷ []) ≡ ids order ++ id ∷ [])
  take_next order g id queue s inv stored h =
      let head = head_ready (ids order) g id queue inv in
      let same : stored.subtask ≡ s = cc (stored.is_found) in
      let none_left : pending (ids order) s.depends_on ≡ 0 =
        rw (← same) (omega (arith, stored.deps_le (ids order), inv.degrees id, head.1)) in
      let id_of : s.id ≡ id = rw (← same) stored.has_id in
      (
        IsOrdered-snoc [] order s h (pending-zero (ids order) s.depends_on none_left),
        rw (← id_of) (map-append (λ (t : OrchestrationSubtask). t.id) order (s ∷ [])),
      )

  counts-IsDistinct : (xs : List Text) → ((k : Text) → count k xs ≤ 1) → IsDistinct xs
  counts-IsDistinct [] h = tt
  counts-IsDistinct (x ∷ xs) h = (
    ground (arith, h x, eq_text_refl x, count-mem x xs),
    counts-IsDistinct xs (λ k. omega (arith, h k)),
  )

  pub known_once :
      (xs : List Text)
      → ((k : Text) → count k xs ≤ (if mem_text k (ids plan) then 1 else 0))
      → IsDistinct xs × (length xs ≤ length plan)
  known_once xs h =
      let distinct = counts-IsDistinct xs (λ k. ground (arith, h k)) in
      (
        distinct,
        omega (
          arith,
          length-subset-le xs (ids plan) distinct (λ z m. ground (arith, h z, count-mem z xs)),
          length-ids plan,
        ),
      )

  drain-Sorted :
      (fuel : ℕ) (g : Map ℕ) (queue : List Text) (order : Plan)
      → fuel + length order ≡ length plan
      → Inv plan (ids order) g queue
      → IsOrdered [] order
      → Sorted plan (drain fuel (by_id plan) (edges plan).1 g queue order)
  unfolding drain
  drain-Sorted fuel g [] order e inv h = record {
    ordered = h;
    ready = λ k. rw (← inv.degrees k) (omega (arith, inv.ready k));
  }
  drain-Sorted zero g (id ∷ queue) order e inv h =
      let distinct = known_once (id ∷ ids order) (λ k. ground (arith, inv.ready k)) in
      absurd (omega (arith, distinct.1, length-ids order))
  drain-Sorted (suc fuel) g (id ∷ queue) order e inv h =
      let found = by_id-Stored plan id (head_ready (ids order) g id queue inv).0 in
      let stored : Stored plan id (some found.subtask) = record {
        subtask = found.subtask;
        is_found = refl;
        has_id = found.has_id;
        deps_le = found.deps_le;
      } in
      let taken = take_next order g id queue found.subtask inv stored h in
      let next = next_Inv (ids order) g id queue inv in
      subst
        (λ o. Sorted plan (
          drain fuel (by_id plan) (edges plan).1
            (release (dependents_of (edges plan).1 id) g queue).0
            (release (dependents_of (edges plan).1 id) g queue).1 (push_found o order)))
        (sym found.is_found)
        (drain-Sorted fuel (release (dependents_of (edges plan).1 id) g queue).0
          (release (dependents_of (edges plan).1 id) g queue).1 (order ++ found.subtask ∷ [])
          (omega (arith, length-append order (found.subtask ∷ []))) (rw taken.1 next) taken.0)

  pub sorted_from-Sorted : Sorted plan (sorted_from plan)
  unfolding sorted_from
  sorted_from-Sorted =
      drain-Sorted (length plan) (edges plan).0 (roots (edges plan).0) [] (omega arith)
        (record {
          degrees = λ k. omega (arith, degree-edges plan k, pending-none (deps_in plan k));
          ready = λ k. omega (arith, roots-IsReady plan k);
        })
        tt

sorted_as :
    (plan order : Plan)
    → topo_sort plan ≡ ok order
    → (sorted_from plan ≡ order) × (length order ≡ length plan)
unfolding topo_sort
sorted_as plan order h = ground arith

-- Where the sort of a plan returns an order, every subtask of it stands after all that it depends
-- on, and the order has the ids of the plan, each once.
pub topo_sort-IsOrdered :
    (plan order : Plan)
    → topo_sort plan ≡ ok order
    → IsOrdered [] order
      × IsDistinct (ids order)
      × ((z : Text) → mem_text z (ids order) ≡ mem_text z (ids plan))
topo_sort-IsOrdered plan order h =
    let same = sorted_as plan order h in
    let sorted : Sorted plan order = rw (sym same.0) (sorted_from-Sorted plan) in
    let once = known_once plan (ids order) (λ k. ground (arith, sorted.ready k)) in
    (
      sorted.ordered,
      once.0,
      subset-same_length (ids order) (ids plan) once.0
          (λ z m. ground (arith, sorted.ready z, count-mem z (ids order)))
          (omega (arith, same.1, length-ids order, length-ids plan)),
    )
