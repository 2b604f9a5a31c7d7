-- ===== src/Http.antt =====
-- lib/src/http.c: the headers of a response, received up to their end and parsed.
pub mod Receive
pub mod ReceiveLaws
pub mod Headers
pub mod HeaderLaws
mod Tests
