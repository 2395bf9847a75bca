-- ===== src/FirmwareCore.antt =====
-- firmware/src/firmware_core.{h,c}: the portable command processor.
pub mod State
pub mod Commands
pub mod Handle
