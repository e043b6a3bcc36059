-- ===== src/Storage/Cache.antt =====
-- src/storage/cache.h and src/storage/cache.c: the page cache.
pub mod Defs
pub mod Links
pub mod Guarded
pub mod Hits
pub mod Flush
pub mod Pins
mod Tests
