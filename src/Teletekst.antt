-- ===== src/Teletekst.antt =====
-- firmware/src/teletekst.c: the decoder of teletekst pages.
pub mod Json
pub mod Binary
pub mod Links
pub mod Row
pub mod Decode
pub mod Content
pub mod Characters
pub mod Style
