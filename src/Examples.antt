-- ===== src/Examples.antt =====
-- The theorems at concrete inputs, with a codec, a storage and a Redis server that can be run.
pub mod Instances
pub mod Links
pub mod Receivers
pub mod Routes
pub mod Messages
pub mod Lifecycle
pub mod Signing
pub mod Stores
pub mod Players
pub mod Flushes
pub mod Members
