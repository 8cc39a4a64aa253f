-- ===== src/Uri.antt =====
-- src/quack_uri.cpp and src/include/quack_uri.hpp: the endpoint URI `quack:<host>[:<port>]`.
pub mod Parse
pub mod Split
pub mod Shapes
pub mod Steps
pub mod RoundTrip
pub mod Tests
