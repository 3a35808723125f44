-- ===== src/Triggers.antt =====
-- Triggers, where they are stored, and when they run: runtime/include/cloe/trigger.hpp,
-- runtime/include/cloe/registrar.hpp, engine/src/simulation_events.hpp and
-- engine/src/coordinator.cpp.
pub mod Types
pub mod Actions
pub mod Direct
pub mod History
pub mod Timed
pub mod Draining
pub mod ListQueue
pub mod Coordinator
pub mod Conservation
pub mod Transition
mod Examples
