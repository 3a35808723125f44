-- ===== src/Models.antt =====
-- Utilities for models: models/ and runtime/src/cloe/utility.
pub mod Actuation
pub mod UidTracker
pub mod Vehicle
mod Examples
