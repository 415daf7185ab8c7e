-- ===== src/Storage.antt =====
-- The storage of a process, src/framework/storage.
pub mod Configuration
pub mod Service
