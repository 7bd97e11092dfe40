-- ===== src/Bus/Sharing.antt =====
-- agent-os/src/events/bus.ts: `subscribe`, and the sets of listeners that keys share.
use nastroyka_claude.Base.{
  ◌≤◌, ℕ, ◌+◌, ◌<◌, ◌≡◌, refl, sym, ap, subst, ◌∙◌, ◌⊎◌, inl, inr, false, Bool-cases, none, some,
  Option-cases, List, [], ◌∷◌, ◌==◌, Text, eq_text, eq_text_iff, eq_text_refl, arith, Map,
  if◌then◌else◌,
}
use nastroyka_claude.Base.Maps
use nastroyka_claude.Base.Maps.{get-set, get-delete}
use nastroyka_claude.Bus.{set_at, InMemoryEventBus, put, add, subscribe, receivers}

-- Every set in use was made before, and belongs to one key.
pub record IsValid (bus : InMemoryEventBus) : Type 0 where
  pub made : (key : Text) (ref : ℕ) → Maps.get key bus.listeners ≡ some ref → ref < bus.next
  pub own :
      (key other : Text) (ref : ℕ)
      → Maps.get key bus.listeners ≡ some ref
      → Maps.get other bus.listeners ≡ some ref
      → key ≡ other

-- The receivers of one key become the given ones, and no others change.
abbrev pub Becomes : Text → List ℕ → InMemoryEventBus → InMemoryEventBus → Type 0
Becomes run_id now old bus =
    (key : Text) → receivers key bus ≡ (if eq_text run_id key then now else receivers key old)

pub fresh_subscribe :
    (run_id : Text) (l : ℕ) (bus : InMemoryEventBus)
    → Maps.get run_id bus.listeners ≡ none
    → subscribe run_id l bus ≡ (
      bus.next,
      record {
        listeners = Maps.set run_id bus.next bus.listeners;
        sets = put bus.next (l ∷ []) bus.sets;
        next = bus.next + 1;
      },
    )
unfolding subscribe
fresh_subscribe run_id l bus e = rw (e, subscribe) refl

old_subscribe :
    (run_id : Text) (l ref : ℕ) (bus : InMemoryEventBus)
    → Maps.get run_id bus.listeners ≡ some ref
    → subscribe run_id l bus ≡ (
      ref,
      record {
        listeners = Maps.set run_id ref bus.listeners;
        sets = put ref (add l (bus.sets ref)) bus.sets;
        next = bus.next;
      },
    )
unfolding subscribe
old_subscribe run_id l ref bus e = rw (e, subscribe) refl

pub set-same :
    {V : Type 0} (k : Text) (v : V) (m : Map V) → Maps.get k m ≡ some v → Maps.set k v m ≡ m
unfolding Maps.get Maps.set
set-same k v [] h = ground (arith, h)
set-same k v ((j, w) ∷ m) h = elim (Bool-cases (eq_text j k)) [
  | inl e ↦ rw e (
      ap (λ x. (j, x) ∷ m)
        (ground (arith, subst (λ b. (if b then some w else Maps.get k m) ≡ some v) e h)))
  | inr e ↦ rw e (
      ap (λ x. (j, w) ∷ x)
        (set-same k v m (subst (λ b. (if b then some w else Maps.get k m) ≡ some v) e h)))
]

get-set-some :
    (run_id key : Text) (ref r : ℕ) (ls : Map ℕ)
    → Maps.get key (Maps.set run_id ref ls) ≡ some r
    → ((run_id ≡ key) × (r ≡ ref)) ⊎ (Maps.get key ls ≡ some r)
get-set-some run_id key ref r ls h = elim (Bool-cases (eq_text run_id key)) [
  | inl e ↦ inl ((eq_text_iff run_id key).0 e, ground (arith, e, h, get-set run_id key ref ls))
  | inr e ↦ inr (ground (arith, e, h, get-set run_id key ref ls))
]

-- The bus in which a run has a set.
abbrev pub changed_bus : Text → ℕ → List ℕ → ℕ → InMemoryEventBus → InMemoryEventBus
changed_bus run_id ref now next bus = record {
  listeners = Maps.set run_id ref bus.listeners;
  sets = put ref now bus.sets;
  next = next;
}

-- A key is given a set, which no other key has.
module _ (run_id : Text) (ref : ℕ) (now : List ℕ) (next : ℕ) (bus : InMemoryEventBus)
    (valid : IsValid bus) (bound : ref < next) (above : bus.next ≤ next)
    (alone : (key : Text) → Maps.get key bus.listeners ≡ some ref → run_id ≡ key) where
  abbrev after : InMemoryEventBus
  after = record {
    listeners = Maps.set run_id ref bus.listeners;
    sets = put ref now bus.sets;
    next = next;
  }

  pub after-IsValid : IsValid after
  after-IsValid = record {
    made = λ key r e. elim (get-set-some run_id key ref r bus.listeners e) [
      | inl (_, same) ↦ omega (arith, same, bound)
      | inr old ↦ omega (arith, valid.made key r old, above)
    ];
    own = λ key other r e f. elim (get-set-some run_id key ref r bus.listeners e) [
      | inl (k, same) ↦ elim (get-set-some run_id other ref r bus.listeners f) [
        | inl (o, _) ↦ sym k ∙ o
        | inr old ↦ sym k ∙ alone other (old ∙ ap some same)
      ]
      | inr found ↦ elim (get-set-some run_id other ref r bus.listeners f) [
        | inl (o, same) ↦ sym (alone key (found ∙ ap some same)) ∙ o
        | inr old ↦ valid.own key other r found old
      ]
    ];
  }

  untouched :
      (key : Text)
      → eq_text run_id key ≡ false
      → set_at after (Maps.get key bus.listeners) ≡ set_at bus (Maps.get key bus.listeners)
  untouched key other = elim (Option-cases (Maps.get key bus.listeners)) [
    | inl e ↦ rw e refl
    | inr (r, e) ↦ rw e (elim (Bool-cases (r == ref)) [
      | inl same ↦ ground (
        arith,
        other,
        (eq_text_iff run_id key).1 (alone key (e ∙ ap some (ground (arith, same)))),
      )
      | inr differs ↦ rw differs refl
    ])
  ]

  pub after-Becomes : Becomes run_id now bus after
  unfolding receivers
  after-Becomes key =
      rw (get-set run_id key ref bus.listeners) (elim (Bool-cases (eq_text run_id key)) [
        | inl e ↦ rw e (ground arith)
        | inr e ↦ rw e (untouched key e)
      ])

-- What a change of one key's listeners comes to, when it leaves the given set under the given reference.
abbrev pub Changed : Text → List ℕ → InMemoryEventBus → InMemoryEventBus → Type 0
Changed run_id now old bus = IsValid bus × Becomes run_id now old bus

-- From a valid bus, subscribing gives a valid one in which the returned set is the run's; the listener is
-- added to the receivers of the run, at the end unless it was there, and no other key's receivers change.
pub subscribe-IsValid :
    (run_id : Text) (l : ℕ) (bus : InMemoryEventBus)
    → IsValid bus
    → let out = subscribe run_id l bus in
      (Maps.get run_id out.1.listeners ≡ some out.0)
      × Changed run_id (add l (receivers run_id bus)) bus out.1
unfolding receivers
subscribe-IsValid run_id l bus valid = elim (Option-cases (Maps.get run_id bus.listeners)) [
  | inl e ↦ subst Goal (sym (fresh_subscribe run_id l bus e)) (
    stored bus.next,
    (subst
        (λ x.
          Changed run_id (add l (set_at bus x)) bus
            (changed_bus run_id bus.next (l ∷ []) (bus.next + 1) bus))
        (sym e)
        (
          after-IsValid run_id bus.next (l ∷ []) (bus.next + 1) bus valid (omega arith)
              (omega arith) unused,
          after-Becomes run_id bus.next (l ∷ []) (bus.next + 1) bus valid (omega arith)
              (omega arith) unused,
        )),
  )
  | inr (ref, e) ↦ subst Goal (sym (old_subscribe run_id l ref bus e)) (
    stored ref,
    (subst
        (λ x.
          Changed run_id (add l (set_at bus x)) bus
            (changed_bus run_id ref (add l (bus.sets ref)) bus.next bus))
        (sym e)
        (
          after-IsValid run_id ref (add l (bus.sets ref)) bus.next bus valid
              (valid.made run_id ref e) (omega arith) (λ key f. valid.own run_id key ref e f),
          after-Becomes run_id ref (add l (bus.sets ref)) bus.next bus valid
              (valid.made run_id ref e) (omega arith) (λ key f. valid.own run_id key ref e f),
        )),
  )
]
  where
    Goal : ℕ × InMemoryEventBus → Type 0
    Goal out =
        (Maps.get run_id out.1.listeners ≡ some out.0)
        × Changed run_id (add l (receivers run_id bus)) bus out.1

    stored : (ref : ℕ) → Maps.get run_id (Maps.set run_id ref bus.listeners) ≡ some ref
    stored ref = get-set run_id run_id ref bus.listeners ∙ ground (arith, eq_text_refl run_id)

    unused : (key : Text) → Maps.get key bus.listeners ≡ some bus.next → run_id ≡ key
    unused key f = absurd (omega (arith, valid.made key bus.next f))
