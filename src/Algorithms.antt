-- ===== src/Algorithms.antt =====
-- src/algorithms/kalman_filter.c: the Kalman filters and the filters for the readings of sensors.
pub mod Kalman1d
pub mod Kalman2d
pub mod Kalman3d
pub mod Filters
mod Examples
