-- ===== src/Txn.antt =====
-- The modules of src/txn.
pub mod Wal
pub mod Open
pub mod Manager
