-- ===== src/Sinks.antt =====
-- include/hlog/sinks and src/sinks: where the messages go.
pub mod Stream
pub mod File
pub mod Rotating
pub mod Interface
pub mod Console
pub mod Multi
mod Tests
