-- ===== src/Bus/Leaving.antt =====
-- agent-os/src/events/bus.ts: `unsubscribe`, and `emit` after it.
use nastroyka_claude.Base.{
  ℕ, ◌+◌, ◌≡◌, refl, sym, ap, subst, ◌∙◌, inl, inr, true, false, Bool-cases, none, some,
  Option-cases, List, [], ◌∷◌, ◌==◌, Text, eq_text, eq_text_iff, eq_text_refl, arith, Map,
}
use nastroyka_claude.Base.Maps
use nastroyka_claude.Base.Maps.{get-set, get-delete}
use nastroyka_claude.Bus.{
  InMemoryEventBus, put, remove, is_empty, subscribe, unsubscribe, receivers, set_at,
}
use nastroyka_claude.Bus.Sharing.{
  IsValid, Becomes, Changed, changed_bus, set-same, after-IsValid, after-Becomes, fresh_subscribe,
}

-- The bus in which a run has no set.
abbrev deleted_bus : Text → ℕ → InMemoryEventBus → InMemoryEventBus
deleted_bus run_id ref bus = record {
  listeners = Maps.delete run_id bus.listeners;
  sets = put ref [] bus.sets;
  next = bus.next;
}

get-delete-some :
    (run_id key : Text) (r : ℕ) (ls : Map ℕ)
    → Maps.get key (Maps.delete run_id ls) ≡ some r
    → (Maps.get key ls ≡ some r)
get-delete-some run_id key r ls h = elim (Bool-cases (eq_text run_id key)) [
  | inl e ↦ ground (arith, e, h, get-delete run_id key ls)
  | inr e ↦ ground (arith, e, h, get-delete run_id key ls)
]

deleted_bus-IsValid :
    (run_id : Text) (ref : ℕ) (bus : InMemoryEventBus)
    → IsValid bus
    → IsValid (deleted_bus run_id ref bus)
deleted_bus-IsValid run_id ref bus valid = record {
  made = λ key r e. valid.made key r (get-delete-some run_id key r bus.listeners e);
  own = λ key other r e f.
      valid.own key other r (get-delete-some run_id key r bus.listeners e)
        (get-delete-some run_id other r bus.listeners f);
}

deleted_bus-Becomes :
    (run_id : Text) (ref : ℕ) (bus : InMemoryEventBus)
    → IsValid bus
    → Maps.get run_id bus.listeners ≡ some ref
    → Becomes run_id [] bus (deleted_bus run_id ref bus)
unfolding receivers
deleted_bus-Becomes run_id ref bus valid e key =
    rw (get-delete run_id key bus.listeners) (elim (Bool-cases (eq_text run_id key)) [
      | inl same ↦ rw same refl
      | inr other ↦ rw other (elim (Option-cases (Maps.get key bus.listeners)) [
        | inl f ↦ rw f refl
        | inr (r, f) ↦ rw f (elim (Bool-cases (r == ref)) [
          | inl clash ↦ ground (
            arith,
            other,
            (eq_text_iff run_id key).1
                (valid.own run_id key ref e (f ∙ ap some (ground (arith, clash)))),
          )
          | inr differs ↦ rw differs refl
        ])
      ])
    ])

is_empty-nil : (ls : List ℕ) → is_empty ls ≡ true → ls ≡ []
is_empty-nil [] h = refl
is_empty-nil (x ∷ ls) h = ground (arith, h)

unsubscribe_last :
    (run_id : Text) (ref l : ℕ) (bus : InMemoryEventBus)
    → is_empty (remove l (bus.sets ref)) ≡ true
    → unsubscribe run_id ref l bus ≡ deleted_bus run_id ref bus
unfolding unsubscribe
unsubscribe_last run_id ref l bus e = rw (is_empty-nil (remove l (bus.sets ref)) e) refl

unsubscribe-some :
    (run_id : Text) (ref l : ℕ) (bus : InMemoryEventBus)
    → Maps.get run_id bus.listeners ≡ some ref
    → is_empty (remove l (bus.sets ref)) ≡ false
    → unsubscribe run_id ref l bus ≡ changed_bus run_id ref (remove l (bus.sets ref)) bus.next bus
unfolding unsubscribe
unsubscribe-some run_id ref l bus f e = rw e (rw (set-same run_id ref bus.listeners f) refl)

-- From a valid bus in which a run's set is the one that a subscription kept, unsubscribing gives a valid
-- one; the listener is gone from the receivers of the run, and no other receivers change.
pub unsubscribe-IsValid :
    (run_id : Text) (ref l : ℕ) (bus : InMemoryEventBus)
    → IsValid bus
    → Maps.get run_id bus.listeners ≡ some ref
    → Changed run_id (remove l (receivers run_id bus)) bus (unsubscribe run_id ref l bus)
unfolding receivers
unsubscribe-IsValid run_id ref l bus valid f =
    subst (λ x. Changed run_id (remove l (set_at bus x)) bus (unsubscribe run_id ref l bus)) (sym f)
      (elim (Bool-cases (is_empty (remove l (bus.sets ref)))) [
        | inl e ↦
            subst (Changed run_id (remove l (bus.sets ref)) bus)
              (sym (unsubscribe_last run_id ref l bus e))
              (subst (λ x. Changed run_id x bus (deleted_bus run_id ref bus))
                (sym (is_empty-nil (remove l (bus.sets ref)) e))
                (
                  deleted_bus-IsValid run_id ref bus valid,
                  deleted_bus-Becomes run_id ref bus valid f,
                ))
        | inr e ↦
            subst (Changed run_id (remove l (bus.sets ref)) bus)
              (sym (unsubscribe-some run_id ref l bus f e))
              (
                after-IsValid run_id ref (remove l (bus.sets ref)) bus.next bus valid
                    (valid.made run_id ref f) (omega arith) (λ key g. valid.own run_id key ref f g),
                after-Becomes run_id ref (remove l (bus.sets ref)) bus.next bus valid
                    (valid.made run_id ref f) (omega arith) (λ key g. valid.own run_id key ref f g),
              )
      ])

gone :
    (run_id : Text) (ref : ℕ) (bus : InMemoryEventBus)
    → receivers run_id (deleted_bus run_id ref bus) ≡ []
unfolding receivers
gone run_id ref bus = rw (get-delete run_id run_id bus.listeners) (rw (eq_text_refl run_id) refl)

-- What the listener's function and the other's subscription leave.
abbrev pub resubscribed : Text → (l other : ℕ) → InMemoryEventBus → InMemoryEventBus
resubscribed run_id l other bus =
    let first = subscribe run_id l bus in
    (subscribe run_id other (unsubscribe run_id first.0 l first.1)).1

left_bus : Text → ℕ → InMemoryEventBus → InMemoryEventBus
left_bus run_id l bus =
    deleted_bus run_id bus.next (changed_bus run_id bus.next (l ∷ []) (bus.next + 1) bus)

left_bus_lem :
    (run_id : Text) (l : ℕ) (bus : InMemoryEventBus)
    → unsubscribe run_id bus.next l (changed_bus run_id bus.next (l ∷ []) (bus.next + 1) bus)
      ≡ left_bus run_id l bus
unfolding left_bus
left_bus_lem run_id l bus =
    unsubscribe_last run_id bus.next l (changed_bus run_id bus.next (l ∷ []) (bus.next + 1) bus)
      (ground arith)

resubscribed_lem :
    (run_id : Text) (l other : ℕ) (bus : InMemoryEventBus)
    → Maps.get run_id bus.listeners ≡ none
    → resubscribed run_id l other bus
      ≡ changed_bus run_id (bus.next + 1) (other ∷ []) (bus.next + 2) (left_bus run_id l bus)
unfolding left_bus
resubscribed_lem run_id l other bus e =
    ap
      (λ (first : ℕ × InMemoryEventBus).
        (subscribe run_id other (unsubscribe run_id first.0 l first.1)).1)
      (fresh_subscribe run_id l bus e)
    ∙ (ap (λ b. (subscribe run_id other b).1) (left_bus_lem run_id l bus)
        ∙ (ap (λ (out : ℕ × InMemoryEventBus). out.1)
              (fresh_subscribe run_id other (left_bus run_id l bus) (
                get-delete run_id run_id (Maps.set run_id bus.next bus.listeners)
                ∙ ground (arith, eq_text_refl run_id)))
            ∙ ap (λ n. changed_bus run_id (bus.next + 1) (other ∷ []) n (left_bus run_id l bus))
                (omega arith)))

now_only :
    (run_id : Text) (other ref next : ℕ) (bus : InMemoryEventBus)
    → receivers run_id (changed_bus run_id ref (other ∷ []) next bus) ≡ other ∷ []
unfolding receivers
now_only run_id other ref next bus =
    rw (get-set run_id run_id ref bus.listeners) (rw (eq_text_refl run_id) (ground arith))

-- When no one listens to a run, and a listener subscribes, unsubscribes, another subscribes and is the
-- run's only receiver, then calling the first one's `unsubscribe` again leaves the run without receivers.
pub unsubscribe_twice :
    (run_id : Text) (l other : ℕ) (bus : InMemoryEventBus)
    → Maps.get run_id bus.listeners ≡ none
    → let before = resubscribed run_id l other bus in
      (receivers run_id before ≡ other ∷ [])
      × (receivers run_id (unsubscribe run_id (subscribe run_id l bus).0 l before) ≡ [])
unfolding left_bus receivers
unsubscribe_twice run_id l other bus e =
    let left = left_bus run_id l bus in
    let before = changed_bus run_id (bus.next + 1) (other ∷ []) (bus.next + 2) left in
    let same = resubscribed_lem run_id l other bus e in
    (
      ap (receivers run_id) same ∙ now_only run_id other (bus.next + 1) (bus.next + 2) left,
      ap
            (λ (first : ℕ × InMemoryEventBus).
              receivers run_id (unsubscribe run_id first.0 l (resubscribed run_id l other bus)))
            (fresh_subscribe run_id l bus e)
          ∙ (ap (λ b. receivers run_id (unsubscribe run_id bus.next l b)) same
              ∙ (ap (receivers run_id) (unsubscribe_last run_id bus.next l before (ground arith))
                  ∙ gone run_id bus.next before)),
    )
