-- ===== src/Txn/Manager.antt =====
-- src/txn/txn.h and src/txn/txn.c: the transaction manager.
pub mod Defs
pub mod Tracking
pub mod Limits
pub mod Lifecycle
mod Tests
