-- ===== src/Coordinator.antt =====
-- AQSIOSCoordinator/src/AQSIOSCoordinator.cpp: the coordinator.
pub mod Script
pub mod Loading
pub mod Loaded
pub mod Sockets
mod Tests
