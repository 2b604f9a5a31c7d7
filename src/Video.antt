-- ===== src/Video.antt =====
-- lib/src/videoreceiver.c: from packets of video to frames for the decoder, with the reports of what
-- is missing.
pub mod State
pub mod Report
pub mod Flush
pub mod Receive
pub mod ReportLaws
pub mod RefLaws
pub mod FlushLaws
pub mod ReceiveLaws
mod Tests
