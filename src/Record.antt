-- ===== src/Record.antt =====
-- internal/record, internal/recordbuild and internal/hookabi: the decision-state block that a
-- capture at an injected hook writes, its layout, and its rendering as a comment.
pub mod Build
pub mod Types
pub mod Layout
pub mod Comment
pub mod Sink
pub mod Decode
