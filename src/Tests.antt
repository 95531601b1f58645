-- ===== src/Tests.antt =====
-- Runs of the definitions on concrete inputs.
mod Lexer
mod Ring
mod Record
mod Net
mod Filter
mod Parser
mod Output
mod Merge
mod Batch
mod CtxFlow
