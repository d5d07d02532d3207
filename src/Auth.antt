-- ===== src/Auth.antt =====
-- src/auth: the lockout of failing clients, and the bearer tokens.
pub mod Lockout
pub mod Request
