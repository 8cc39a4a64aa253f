-- ===== src/Listen.antt =====
-- The servers that listen: src/quack_http_server.cpp, src/quack_storage.cpp and
-- src/quack_start_stop.cpp.
pub mod Http
pub mod Table
pub mod Functions
pub mod Routes
pub mod Loopback
pub mod Requests
pub mod Session
pub mod Laws
pub mod Checks
pub mod RoundTrip
mod Tests
mod SessionTests
