-- ===== src/Sched.antt =====
-- The scheduler, kernel/core/sched.c.
pub mod State
pub mod Queue
pub mod Switch
pub mod Calls
pub mod Spawn
pub mod Irq
pub mod Fifo
pub mod Kill
pub mod Init
mod Tests
