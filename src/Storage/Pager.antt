-- ===== src/Storage/Pager.antt =====
-- src/storage/pager.c: pages of a file, with checksums, and the bitmap of allocated pages.
pub mod Defs
pub mod Bitmap
pub mod Alloc
pub mod Pages
mod Tests
