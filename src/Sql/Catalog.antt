-- ===== src/Sql/Catalog.antt =====
-- src/sql/catalog.h and src/sql/catalog.c: the schemas of the tables.
pub mod Schema
mod RoundTrip
pub mod Ops
mod Page
mod Update
mod Tests
