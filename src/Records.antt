-- ===== src/Records.antt =====
-- The rows of exposed tables, as src/database/data-repository.ts answers them.
pub mod Values
pub mod Methods
pub mod Shown
pub mod Safety
mod Tests
