-- ===== src/Domain/StateMachine.antt =====
-- agent-os/src/domain/runStateMachine.ts
pub mod Paths
use nastroyka_claude.Base.{Bool, true, false, ◌||◌, List, [], ◌∷◌, any, if◌then◌else◌}
use nastroyka_claude.Domain.Types.{
  RunStatus, queued, running, paused, succeeded, failed, canceled, eq_status,
}
use nastroyka_claude.Domain.Errors.{Error, illegal_transition, Result, ok, err}

unfoldable pub allowed_transitions : RunStatus → List RunStatus
allowed_transitions queued = running ∷ canceled ∷ []
allowed_transitions running = paused ∷ succeeded ∷ failed ∷ canceled ∷ []
allowed_transitions paused = running ∷ canceled ∷ []
allowed_transitions succeeded = []
allowed_transitions failed = []
allowed_transitions canceled = []

abbrev pub terminal_states : List RunStatus
terminal_states = succeeded ∷ failed ∷ canceled ∷ []

unfoldable pub can_transition : RunStatus → RunStatus → Bool
unfolding allowed_transitions
can_transition from to = any (eq_status to) (allowed_transitions from)

unfoldable pub is_terminal : RunStatus → Bool
is_terminal status = any (eq_status status) terminal_states

unfoldable pub transition : RunStatus → RunStatus → Result RunStatus
unfolding can_transition
transition from to = if can_transition from to then ok to else err (illegal_transition from to)
