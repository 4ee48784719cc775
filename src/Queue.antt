-- ===== src/Queue.antt =====
-- src/shm/queue.rs: a bounded queue of fixed-size items in shared memory, for any number of
-- producers and consumers.
pub mod Guard
pub mod Agent
pub mod Steps
pub mod Invariant
pub mod Safety
pub mod Fifo
pub mod Spec
pub mod Refine
pub mod Solo
pub mod Progress
pub mod Layout
mod Tests
