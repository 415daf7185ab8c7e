-- ===== src/Ipc.antt =====
-- The inter-process communication library, src/framework/ipc.
pub mod Types
pub mod Frame
pub mod Transport
pub mod Control
pub mod Link
pub mod Directory
pub mod Routing
pub mod Discovery
pub mod Messaging
