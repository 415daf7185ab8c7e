-- ===== src/Gate/Login.antt =====
-- src/gate/services/login_service and auth_service, with the disconnect handler that
-- src/gate/application.cpp sets: how a client signs in at a gate, is replaced by a newer sign-in and
-- is taken down. All the services that the methods test for are registered.
pub mod Auth
pub mod Disconnect
pub mod Kicks
pub mod Requests
pub mod Answers
pub mod SignedIn
pub mod Once
pub mod Closing
pub mod Kicking
pub mod Beginning
