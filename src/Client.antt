-- ===== src/Client.antt =====
-- src/quack_client.cpp and src/include/quack_client.hpp: requests to a server and the cache of
-- clients of a connection.
pub mod Host
pub mod Request
pub mod Pool
pub mod Laws
pub mod Query
pub mod Served
mod Tests
