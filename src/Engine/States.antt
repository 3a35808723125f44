-- ===== src/Engine/States.antt =====
-- The sixteen states of the simulation machine: engine/src/simulation_state_*.cpp.
pub mod Setup
pub mod Stepping
pub mod Ending
pub mod Writes
