-- ===== src/Sql/Parser.antt =====
-- src/sql/parser.h and src/sql/parser.c: the statements of SQL.
pub mod Ast
pub mod State
pub mod Statements
pub mod Select
pub mod Grammar
mod Reads
mod Complete
mod CompleteSelect
mod CompleteClauses
mod CompleteAll
mod Takes
mod Sound
mod SoundSelect
mod SoundClauses
mod SoundAll
mod Errors
mod Outcome
mod Tests
