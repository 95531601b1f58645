-- ===== src/Output.antt =====
-- internal/output: the blocks of a pcapng file that a hook capture writes and merges.
pub mod Fields
pub mod Epb
pub mod Hooks
pub mod Header
pub mod Frames
pub mod Record
pub mod Merge
