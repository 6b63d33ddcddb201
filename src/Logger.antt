-- ===== src/Logger.antt =====
-- AsyncLogger: src/core/async_logger.cpp and the inline parts of include/hlog/async_logger.h.
pub mod Gate
pub mod Worker
pub mod Machine
pub mod Calls
mod Tests
