-- ===== src/Server.antt =====
-- AQSIOSCoordinator/src/server: the server, which compiles the queries of an application.
pub mod Replies
pub mod Reply
pub mod Tables
pub mod State
pub mod Calls
pub mod Invariant
pub mod Evolution
pub mod Tests
