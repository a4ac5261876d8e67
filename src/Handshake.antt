-- ===== src/Handshake.antt =====
-- serialize/handshake: the two messages of a handshake.
pub mod Request
pub mod Response
mod Tests
