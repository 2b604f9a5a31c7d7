-- ===== src/Frame.antt =====
-- Assembly of frames from units: lib/src/frameprocessor.c.
pub mod Processor
pub mod Flush
pub mod Counts
pub mod Ready
pub mod Alloc
pub mod Put
pub mod Compact
mod Tests
