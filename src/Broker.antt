-- ===== src/Broker.antt =====
-- The data broker: runtime/include/cloe/data_broker.hpp.
pub mod Types
pub mod Results
pub mod Signals
pub mod Access
pub mod Linked
pub mod Reach
pub mod Writes
pub mod Names
pub mod Moves
pub mod Spec
pub mod Refines
mod Examples
