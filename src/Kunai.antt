-- ===== src/Kunai.antt =====
-- pkg/kunai: the filter language's syntax tree and lexer.
pub mod Ast
pub mod Lexer
pub mod Parser
