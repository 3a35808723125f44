-- ===== src/Stack.antt =====
-- The configuration of a simulation: stack/src/cloe/stack.cpp.
pub mod Consistency
pub mod Resolved
pub mod OnePass
mod Examples
