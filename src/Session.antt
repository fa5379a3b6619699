-- ===== src/Session.antt =====
-- Sources/miniDHT_session.h: the packets that nodes exchange, and the sessions that carry them.
pub mod Message
pub mod Header
pub mod Framing
pub mod State
pub mod Steps
pub mod Release
pub mod Lifetime
pub mod Reads
pub mod Writes
pub mod Safety
pub mod Queue
pub mod Table
pub mod Progress
pub mod Transport
pub mod Exchange
pub mod Delivery
