-- ===== src/Fable.antt =====
-- The helpers of the configuration library: fable/src/fable.
pub mod Environment
pub mod Json
pub mod Schema
pub mod Strings
pub mod Templates
pub mod Scan
pub mod Meaning
mod Examples
