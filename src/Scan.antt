-- ===== src/Scan.antt =====
-- src/quack_scan.cpp and src/include/quack_scan.hpp: the table functions that read a query's result.
pub mod Remote
pub mod Types
pub mod Bind
pub mod Init
pub mod Loop
pub mod Session
pub mod Calls
pub mod Reader
pub mod Delivery
pub mod Termination
pub mod SessionEnds
pub mod ByName
pub mod Ledger
pub mod Threads
pub mod Stands
pub mod Parallel
pub mod Order
mod Tests
