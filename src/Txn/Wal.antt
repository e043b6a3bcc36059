-- ===== src/Txn/Wal.antt =====
-- src/txn/wal.h and src/txn/wal.c: the write-ahead log.
pub mod Defs
pub mod Records
pub mod Flush
pub mod Recover
pub mod Durable
mod Tests
