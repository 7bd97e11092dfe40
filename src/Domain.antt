-- ===== src/Domain.antt =====
-- agent-os/src/domain: the data model, the run state machine and the error texts.
pub mod Json
pub mod Types
pub mod Errors
pub mod StateMachine
