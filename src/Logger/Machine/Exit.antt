-- ===== src/Logger/Machine/Exit.antt =====
-- What the operation gate promises: src/core/async_logger.cpp, TryStartOperation, FinishOperation,
-- RequestStop and the exit of WorkerLoop.
pub mod Count
pub mod Calls
pub mod Works
pub mod Reached
