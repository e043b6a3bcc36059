-- ===== src/Storage.antt =====
-- src/storage: rows, pages, the page cache.
pub mod Row
pub mod Pager
pub mod PageIo
pub mod Cache
pub mod Btree
