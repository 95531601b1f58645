-- ===== src/Kunai/Lexer.antt =====
-- pkg/kunai/lexer: tokens, the scanner's state, literal values, the two scanning modes, and what is
-- proved of them.
pub mod Token
pub mod State
pub mod Literals
pub mod Scan
pub mod Moves
pub mod Location
