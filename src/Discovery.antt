-- ===== src/Discovery.antt =====
-- lib/src/discoveryservice.c: the consoles that answer the search.
pub mod Hosts
pub mod DropLaws
pub mod Known
pub mod ReceiveLaws
pub mod Distinct
pub mod Valid
mod Tests
