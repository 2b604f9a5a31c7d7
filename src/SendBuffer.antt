-- ===== src/SendBuffer.antt =====
-- lib/src/takionsendbuffer.c and lib/src/remote/rudpsendbuffer.c: the packets that wait to be
-- acknowledged. The two files are one text at two widths of the sequence numbers, so the operations
-- are functions of `lt`, and `Takion` and `Rudp` are their instances.
pub mod Buffer
pub mod Gap
pub mod Ack
pub mod Push
pub mod Resend
pub mod ResendLaws
pub mod Takion
pub mod Rudp
mod Tests
