-- ===== src/Wire.antt =====
-- zwayland/wire: the Wayland wire format and its transport.
pub mod Bytes
pub mod Error
pub mod Signature
pub mod Builder
pub mod Parser
pub mod Args
pub mod Connection
pub mod Message
mod Tests
