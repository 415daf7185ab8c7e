-- ===== src/Game.antt =====
-- The game process, src/game.
pub mod Redis
pub mod Lease
pub mod Repository
pub mod Runtime
pub mod IpcClient
pub mod Session
pub mod Persistence
