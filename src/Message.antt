-- ===== src/Message.antt =====
-- src/include/quack_message.hpp, src/quack_message.cpp and src/serialize_quack_message.cpp: the
-- messages of the protocol and their wire format.
pub mod Types
pub mod Enum
pub mod Serializer
pub mod Wire
pub mod RoundTrip
pub mod Tokens
mod Tests
