-- ===== src/Domain/StateMachine/Paths.antt =====
-- agent-os/src/domain/runStateMachine.ts: the transitions as a graph, and its paths.
use nastroyka_claude.Base.{◌≡◌, refl, sym, subst, ◌≢◌, ◌⊎◌, inl, inr, ◌↔◌, false, arith}
use nastroyka_claude.Domain.Types.{RunStatus, queued, running, paused, succeeded, failed, canceled}
use nastroyka_claude.Domain.Errors.{ok}
use nastroyka_claude.Domain.StateMachine.{can_transition, is_terminal, transition}

-- `to` is reached from `from` by transitions that `transition` accepts.
pub data Reaches (from : RunStatus) : RunStatus → Type 0 where
  here : Reaches from from
  step : {mid to : RunStatus} → Reaches from mid → transition mid to ≡ ok to → Reaches from to

-- An accepted transition leaves a state that is not terminal, and never leads to 'queued'.
transition_source : (from to : RunStatus) → transition from to ≡ ok to → is_terminal from ≡ false
unfolding transition can_transition is_terminal
transition_source from to h = ground arith

transition_target : (from to : RunStatus) → transition from to ≡ ok to → to ≢ queued
unfolding transition can_transition
transition_target from to h e = ground arith

Reaches-sound :
    (from to : RunStatus)
    → Reaches from to
    → (from ≡ to) ⊎ ((is_terminal from ≡ false) × (to ≢ queued))
Reaches-sound from to here = inl refl
Reaches-sound from to (step {mid} r t) = elim (Reaches-sound from mid r) [
  | inl e ↦ inr (
    subst (λ m. is_terminal m ≡ false) (sym e) (transition_source mid to t),
    transition_target mid to t,
  )
  | inr (alive, _) ↦ inr (alive, transition_target mid to t)
]

-- Every state that is not terminal goes to 'running', and 'running' to every state but 'queued'.
to_running : (from : RunStatus) → is_terminal from ≡ false → Reaches from running
unfolding is_terminal transition can_transition
to_running queued h = step here refl
to_running running h = here
to_running paused h = step here refl
to_running succeeded h = cc
to_running failed h = cc
to_running canceled h = cc

from_running : (from to : RunStatus) → to ≢ queued → Reaches from running → Reaches from to
unfolding transition can_transition
from_running from queued h r = absurd (h refl)
from_running from running h r = r
from_running from paused h r = step r refl
from_running from succeeded h r = step r refl
from_running from failed h r = step r refl
from_running from canceled h r = step r refl

-- A status is reached from another by accepted transitions exactly when they are the same, or the
-- first is not terminal and the second is not 'queued'.
pub Reaches-iff :
    (from to : RunStatus)
    → Reaches from to ↔ ((from ≡ to) ⊎ ((is_terminal from ≡ false) × (to ≢ queued)))
Reaches-iff from to = (
  Reaches-sound from to,
  λ h. elim h [
    | inl e ↦ subst (Reaches from) e here
    | inr (alive, fresh) ↦ from_running from to fresh (to_running from alive)
  ],
)
