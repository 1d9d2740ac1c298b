-- ===== src/Threads.antt =====
-- The threads library of threads/thread.c.
pub mod Fifo
pub mod Queue
pub mod State
pub mod Create
pub mod Exit
pub mod Sleep
pub mod Yield
pub mod Wait
mod Tests
pub mod Invariant
pub mod Lock
pub mod Machine
pub mod Interrupt
pub mod Runs
pub mod Cv
