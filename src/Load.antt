-- ===== src/Load.antt =====
-- AQSIOSCoordinator/src: the load of the nodes, as they report it, and its redistribution.
pub mod Platform
pub mod Node
pub mod Manager
pub mod Tests
