-- ===== src/Cmd.antt =====
-- cmd/main.go: the start of the manager.
pub mod Flags
pub mod Process
pub mod Start
