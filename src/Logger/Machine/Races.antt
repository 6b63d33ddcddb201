-- ===== src/Logger/Machine/Races.antt =====
-- Three orders of steps of src/core/async_logger.cpp that its documentation does not allow for.
pub mod Runs
pub mod Accepted
pub mod Stop
pub mod Tickets
pub mod Wake
