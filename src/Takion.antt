-- ===== src/Takion.antt =====
-- lib/src/takion.c: the protocol on UDP that carries the stream.
pub mod Bytes
pub mod KeyState
pub mod Message
pub mod MessageLaws
pub mod Packet
pub mod PacketLaws
pub mod AvPacket
pub mod Jitter
pub mod DataQueue
pub mod Rounds
pub mod FlushLaws
pub mod DataLaws
pub mod Handle
pub mod HandleLaws
pub mod Handshake
pub mod HandshakeLaws
pub mod AvPacketLaws
mod Tests
mod StreamTests
