-- ===== src/Core.antt =====
-- boost/threadpool/detail/pool_core.hpp with the policies that its operations call: the state of a
-- pool with its threads, and one function for each stretch of code between two releases of the
-- monitor.
pub mod State
pub mod Notify
pub mod Tasks
pub mod Waiting
pub mod Guard
pub mod Resize
pub mod Execute
pub mod Shutdown
