-- ===== src/Engine.antt =====
-- The simulation engine: engine/src.
pub mod Progress
pub mod Types
pub mod Context
pub mod Monad
pub mod Foreach
pub mod Keeps
pub mod States
pub mod Machine
pub mod Execution
pub mod Clock
pub mod Outcome
pub mod Decision
pub mod Graph
pub mod CatchUp
pub mod Ended
pub mod Samples
mod Tests
mod Examples
pub mod Vehicles
pub mod Components
pub mod Watchdog
pub mod Registrar
