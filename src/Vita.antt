-- ===== src/Vita.antt =====
-- The Vita client's own policies, under vita/src.
pub mod LossProfile
pub mod LossLaws
mod Tests
