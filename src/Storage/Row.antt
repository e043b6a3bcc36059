-- ===== src/Storage/Row.antt =====
-- src/storage/row.c: rows and their binary form.
pub mod Defs
pub mod RoundTrip
pub mod Valid
pub mod Setters
pub mod Outcomes
mod Tests
