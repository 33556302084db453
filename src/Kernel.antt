-- ===== src/Kernel.antt =====
-- src/kernel: the queue, the semaphore and the scheduler.
pub mod Queue
pub mod Scheduler
pub mod Semaphore
