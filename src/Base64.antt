-- ===== src/Base64.antt =====
-- lib/src/base64.c. The characters are their codes; `char` is taken as unsigned, as on the Vita.
pub mod Codec
pub mod RoundTrip
mod Tests
