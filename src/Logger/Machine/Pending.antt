-- ===== src/Logger/Machine/Pending.antt =====
-- The counters of a logger at every step of its threads and its worker
-- (src/core/async_logger.cpp: Publish, HandleItem, RecordWorkerFailure, Stats).
pub mod Counts
pub mod Calls
pub mod Works
pub mod Reached
