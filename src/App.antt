-- ===== src/App.antt =====
-- src/app: the state of the bridge, and its responses.
pub mod Shards
pub mod Error
pub mod Response
pub mod Routes
pub mod Handlers
pub mod Realtime
