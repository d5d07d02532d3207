-- ===== src/Config.antt =====
-- src/config/: the targets and their tokens.
pub mod Token
pub mod Hash
pub mod Env
pub mod Types
pub mod Targets
pub mod Mode
pub mod Bridge
