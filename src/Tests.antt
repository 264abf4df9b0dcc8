-- ===== src/Tests.antt =====
-- Runs on concrete inputs, and each theorem that has hypotheses at an input that meets them.
pub mod Setup
pub mod Sessions
pub mod Programs
pub mod Pools
pub mod Schedulers
pub mod Values
pub mod Locks
pub mod Waiters
pub mod Deaths
pub mod Runs
pub mod Facade
pub mod Promises
pub mod Sorting
pub mod PoolSort
