-- ===== src/Os.antt =====
-- src/os: files over dos.library.
pub mod File
