-- ===== src/Fable/Schema.antt =====
-- Schemas of configurations: fable/include/fable/schema and fable/src/fable/schema. A class of
-- schemas is a function that makes the part of the interface that does not depend on the object
-- behind the schema's pointer; a template takes its prototype as an argument.
pub mod Interface
pub mod Casts
pub mod CastSafe
pub mod Number
pub mod Scalars
pub mod Containers
pub mod Composed
pub mod Accepts
pub mod Agreement
pub mod Judged
pub mod JudgedNumber
pub mod JudgedContainers
pub mod JudgedComposed
pub mod Plain
pub mod Refusals
pub mod Values
pub mod ReadBack
pub mod Objects
pub mod Written
pub mod Ready
pub mod Loads
pub mod Loading
pub mod Factory
pub mod Duration
mod Examples
