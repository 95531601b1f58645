-- ===== src/CtxFlow.antt =====
-- internal/ctxflow: the flow of a program's context through registers.
pub mod Insns
pub mod Reads
