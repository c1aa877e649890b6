-- ===== src/Interaction.antt =====
-- The interactions that Codex asks for in its terminal, and the browser's answers and commands.
pub mod Types
pub mod Runtime
pub mod Clock
pub mod Typings
pub mod Does
pub mod Service
pub mod Examples
pub mod Tests
