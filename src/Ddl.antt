-- ===== src/Ddl.antt =====
-- src/database/schema-ddl.ts: the typed compiler of schema changes.
pub mod Identifiers
pub mod Defaults
pub mod Plans
pub mod Compile
pub mod Constraints
pub mod Privileges
pub mod Lexing
pub mod Rendering
pub mod Safety
pub mod Names
pub mod Refusals
pub mod Guarded
mod Tests
