-- ===== src/Service.antt =====
-- examples/service_example.cpp and examples/runtime_paths.h: an HTTP service that logs with hlog. The
-- system calls, the environment and the filesystem library are parameters.
pub mod Numbers
pub mod Settings
pub mod Http
pub mod Sending
pub mod Handling
pub mod Descriptor
pub mod Connections
pub mod Running
mod Tests
