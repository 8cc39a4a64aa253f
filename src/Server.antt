-- ===== src/Server.antt =====
-- src/quack_server.cpp and src/include/quack_server.hpp: the sessions of a server and the handling
-- of its messages.
pub mod Engine
pub mod State
pub mod Sessions
pub mod Batch
pub mod Log
pub mod Requests
pub mod Handle
pub mod Cases
pub mod Outcome
pub mod Safety
pub mod Gate
pub mod Reach
pub mod Runs
pub mod Ends
pub mod Streaming
pub mod Complete
pub mod Failures
pub mod Tokens
pub mod Answers
pub mod Typed
pub mod Sample
mod Tests
mod SessionTests
