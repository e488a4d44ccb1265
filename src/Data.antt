-- ===== src/Data.antt =====
-- src/data/: the domain service behind the data API.
pub mod Values
pub mod Validate
pub mod Service
mod Tests
