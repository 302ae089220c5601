-- ===== src/Cli.antt =====
-- internal/cli: what the commands do before they call the planner.
pub mod Targets
mod Tests
