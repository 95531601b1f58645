-- ===== src/Kunai/Parser.antt =====
-- pkg/kunai/parser: tokens to syntax trees.
pub mod State
pub mod Paths
pub mod Predicates
pub mod Where
pub mod Literal
pub mod Expressions
pub mod Layers
pub mod Captures
pub mod Filters
pub mod WellFormed
