-- ===== src/Planner.antt =====
-- internal/planner: the plan, and the operations that carry it out.
pub mod Client
pub mod Run
pub mod ServiceState
pub mod Resource
pub mod Prune
pub mod Destroy
pub mod Build
pub mod Contexts
pub mod Apply
pub mod Orchestrate
mod Tests
