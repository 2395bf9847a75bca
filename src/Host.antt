-- ===== src/Host.antt =====
-- src/p2wp.{h,c}: the end of the link in the P2000T. The workspaces of the C file are passed
-- explicitly. A wait for the link has fuel, the polls that are left: `none` is that they ran out.
pub mod Link
pub mod Framing
pub mod Rounds
pub mod Transaction
pub mod Termination
pub mod Starvation
pub mod Sending
pub mod Receiving
pub mod EndToEnd
pub mod Hello
