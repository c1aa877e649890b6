-- ===== src/Sessions.antt =====
-- session_namespace.py and appserver_registry.py: short names, and the registry of web sessions.
pub mod Namespace
pub mod Record
pub mod Registry
pub mod Tests
