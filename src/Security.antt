-- ===== src/Security.antt =====
-- src/security: which Redis commands a token may send.
pub mod Types
pub mod Deny
pub mod Script
pub mod Policy
