-- ===== src/Hal.antt =====
-- The simulated hardware under src/hal.
pub mod Devices
pub mod Rtc
pub mod Serial
pub mod Dma
pub mod Bus
pub mod Clock
pub mod Voltage
