-- ===== src/Filter.antt =====
-- internal/filter: argument filters and set filters.
pub mod Types
pub mod Values
pub mod Check
