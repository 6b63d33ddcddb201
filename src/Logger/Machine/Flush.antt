-- ===== src/Logger/Machine/Flush.antt =====
-- What Flush promises: src/core/async_logger.cpp, Flush, HandleItem and WorkerLoop.
pub mod Defs
pub mod Grow
pub mod Calls
pub mod Works
pub mod Reached
