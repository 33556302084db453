-- ===== src/Simulator.antt =====
-- simulator: the virtual board.
pub mod Board
pub mod Gpio
pub mod Interrupts
pub mod Perf
pub mod Memory
pub mod Display
mod Examples
