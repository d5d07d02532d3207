-- ===== src/Redis.antt =====
-- src/redis: the commands on Redis, and their replies as JSON.
pub mod Value
pub mod Json
pub mod Error
pub mod Wait
pub mod Execute
