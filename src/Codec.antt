-- ===== src/Codec.antt =====
-- src/shared/knock/codec: the codecs that turn a datagram into a normalized unit and back.
mod Tests
pub mod Wire
pub mod Unit
pub mod Sealed
pub mod Nonces
pub mod Body
pub mod Exchange
pub mod V3
pub mod V4
pub mod Pipeline
