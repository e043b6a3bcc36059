-- ===== src/Sql/Lexer.antt =====
-- src/sql/lexer.h and src/sql/lexer.c: the tokens of an SQL text.
pub mod Keywords
pub mod Defs
pub mod Loops
pub mod Progress
pub mod Quoted
mod Tests
