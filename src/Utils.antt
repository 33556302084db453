-- ===== src/Utils.antt =====
-- src/utils: the circular buffer.
pub mod CircularBuffer
pub mod Logger
