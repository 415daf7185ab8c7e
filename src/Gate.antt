-- ===== src/Gate.antt =====
-- The gate process, src/gate.
pub mod State
pub mod Sessions
pub mod Accounts
pub mod Routing
pub mod Connections
pub mod Console
pub mod Protocol
pub mod Login
pub mod Messages
pub mod Numbers
pub mod Run
