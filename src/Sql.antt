-- ===== src/Sql.antt =====
-- src/sql: the lexer, the parser, the catalog and parts of the executor.
pub mod Lexer
pub mod Parser
pub mod Catalog
pub mod Executor
