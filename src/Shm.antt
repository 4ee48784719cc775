-- ===== src/Shm.antt =====
-- Shared memory: src/shm/mod.rs and the two platforms below it.
pub mod Range
pub mod Unix
pub mod Windows
pub mod Map
pub mod Memory
pub mod Tests
