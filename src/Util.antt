-- ===== src/Util.antt =====
-- src/util: byte order, checksums and hashes.
pub mod Endian
pub mod Crc32
pub mod Hash
mod Tests
