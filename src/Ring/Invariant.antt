-- ===== src/Ring/Invariant.antt =====
-- The invariant of the threads over one LockFreeRingBuffer.
pub mod Defs
pub mod Others
pub mod Steps
pub mod Reached
