-- ===== src/Network.antt =====
-- The connections: batches of packets between the transport and the handlers (internal/network).
pub mod Codec
pub mod Stream
pub mod RoundTrip
pub mod Motd
pub mod Pong
pub mod Session
pub mod Exchange
