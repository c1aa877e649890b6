-- ===== src/Commands.antt =====
-- The catalogue of Codex slash commands, and which commands a line invokes.
pub mod Catalog
pub mod Entries
pub mod Loading
pub mod Invocation
pub mod AppServer
pub mod Tests
