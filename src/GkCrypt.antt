-- ===== src/GkCrypt.antt =====
-- lib/src/gkcrypt.c: the key stream of a connection and its ring buffer.
pub mod Counter
pub mod Stream
pub mod Ring
pub mod Windows
pub mod RingLaws
pub mod Threads
pub mod ThreadLaws
pub mod Steps
pub mod Histories
pub mod Cipher
pub mod Gmac
mod Tests
