-- ===== src/Examples.antt =====
-- The theorems at concrete inputs.
mod Policy
mod Lockout
mod Shards
mod Streams
mod Encoding
mod Configuration
mod Environment
mod Requests
mod Replies
mod Execution
mod Handlers
mod Addresses
mod Realtime
mod Metering
mod Running
