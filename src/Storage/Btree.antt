-- ===== src/Storage/Btree.antt =====
-- src/storage/btree.h and src/storage/btree.c: the B+ tree.
pub mod Node
pub mod Moves
pub mod Tree
mod Tests
