-- ===== src/Teams.antt =====
-- agent-os/src/teams: the catalogue of teams.
pub mod Templates
