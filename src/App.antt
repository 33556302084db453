-- ===== src/App.antt =====
-- src/app: the tasks of the application.
pub mod Comm
pub mod Monitor
pub mod Sensor
pub mod MainLoop
pub mod Startup
mod Examples
