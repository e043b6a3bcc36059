-- ===== src/Storage/Btree/Tree.antt =====
-- The operations of src/storage/btree.c on the pages of a tree.
pub mod Ops
pub mod Search
pub mod Insert
pub mod Delete
pub mod Cursor
pub mod Resident
pub mod Model
pub mod Lookup
mod Tests
