-- ===== src/Device.antt =====
-- emulator/src/p2wp_device.c: the peripheral of the emulator.
pub mod Ports
pub mod Serving
pub mod Machine
