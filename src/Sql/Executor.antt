-- ===== src/Sql/Executor.antt =====
-- src/sql/executor.c and src/sql/executor.h: CREATE TABLE, DROP TABLE and INSERT.
pub mod Values
pub mod Ops
mod Typed
mod Refusals
mod Tests
