-- ===== src/Stats.antt =====
-- Packet accounting: lib/src/packetstats.c and lib/src/videoreceiver_gap.c.
pub mod PacketStats
pub mod PacketLaws
pub mod VideoGap
mod Tests
