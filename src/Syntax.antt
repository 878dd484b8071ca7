-- ===== src/Syntax.antt =====
-- The front end that reads a source text, crates/iec_syntax/src.
pub mod Token
pub mod Cursor
pub mod Source
pub mod Skip
pub mod Strings
pub mod Lexer
