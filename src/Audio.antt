-- ===== src/Audio.antt =====
-- Frames of sound and of haptics from the packets that carry them: lib/src/audioreceiver.c.
pub mod Receiver
pub mod ReceiverLaws
mod Tests
