-- ===== src/P2wp.antt =====
-- firmware/src/p2wp.{h,c}: the frame codec of the P2WP link.
pub mod Frame
pub mod Crc
pub mod Version
pub mod Protocol
pub mod Encode
pub mod Parser
pub mod RoundTrip
