-- ===== src/Ota.antt =====
-- The boot and update code under src/ota.
pub mod Flash
pub mod Checksum
pub mod Firmware
pub mod Bootloader
pub mod Dump
pub mod Manager
pub mod Sample
