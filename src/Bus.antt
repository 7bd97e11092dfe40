-- ===== src/Bus.antt =====
-- agent-os/src/events/bus.ts: the in-memory event bus. A listener is a number, which stands for the
-- identity of its function. The sets of listeners are shared: `unsubscribe` keeps the set that its
-- `subscribe` found, so sets live in a store under references. A listener that throws or subscribes
-- while it is called is not modelled.
pub mod Sharing
pub mod Leaving
use nastroyka_claude.Base.{
  ℕ, ◌+◌, Bool, true, false, not, ◌||◌, Option, none, some, List, [], ◌∷◌, ◌++◌, any, keep, ◌==◌,
  Text, text, Map, if◌then◌else◌,
}
use nastroyka_claude.Base.Maps

pub record InMemoryEventBus : Type 0 where
  pub listeners : Map ℕ
  pub sets : ℕ → List ℕ
  pub next : ℕ

abbrev pub empty_bus : InMemoryEventBus
empty_bus = record { listeners = []; sets = λ ref. []; next = 0 }

abbrev pub put : ℕ → List ℕ → (ℕ → List ℕ) → ℕ → List ℕ
put ref set sets r = if r == ref then set else sets r

abbrev pub has : ℕ → List ℕ → Bool
has l set = any (λ (x : ℕ). x == l) set

-- set.add and set.delete
abbrev pub add : ℕ → List ℕ → List ℕ
add l set = if has l set then set else set ++ l ∷ []

abbrev pub remove : ℕ → List ℕ → List ℕ
remove l set = keep (λ (x : ℕ). not (x == l)) set

abbrev pub is_empty : List ℕ → Bool
is_empty [] = true
is_empty (l ∷ ls) = false

-- The result names the set that the returned function keeps.
unfoldable pub subscribe : Text → ℕ → InMemoryEventBus → ℕ × InMemoryEventBus
subscribe run_id listener bus = elim (Maps.get run_id bus.listeners) [
  | none ↦ (
    bus.next,
    record {
      listeners = Maps.set run_id bus.next bus.listeners;
      sets = put bus.next (listener ∷ []) bus.sets;
      next = bus.next + 1;
    },
  )
  | some ref ↦ (
    ref,
    record {
      listeners = Maps.set run_id ref bus.listeners;
      sets = put ref (add listener (bus.sets ref)) bus.sets;
      next = bus.next;
    },
  )
]

-- The returned function.
unfoldable pub unsubscribe : Text → ℕ → ℕ → InMemoryEventBus → InMemoryEventBus
unsubscribe run_id ref listener bus =
    let left = remove listener (bus.sets ref) in
    record {
      listeners = if is_empty left then Maps.delete run_id bus.listeners else bus.listeners;
      sets = put ref left bus.sets;
      next = bus.next;
    }

abbrev set_at : InMemoryEventBus → Option ℕ → List ℕ
set_at bus none = []
set_at bus (some ref) = bus.sets ref

unfoldable pub receivers : Text → InMemoryEventBus → List ℕ
receivers key bus = set_at bus (Maps.get key bus.listeners)

-- publish: the listeners called for an event of a run, in order.
unfoldable pub publish : Text → InMemoryEventBus → List ℕ
publish run_id bus = receivers run_id bus ++ receivers (text "*") bus
