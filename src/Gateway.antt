-- ===== src/Gateway.antt =====
-- gateway_security.py: who may log in, and how often.
pub mod Headers
pub mod Cookie
pub mod Limiter
pub mod Tests
