-- ===== src/ThreadPool.antt =====
-- boost/threadpool/pool.hpp and what stands between a client and pool_core: the members of
-- thread_pool, the size controller, pool_adaptors.hpp, and schedule of future.hpp.
pub mod Members
pub mod Kinds
pub mod Sizes
pub mod Construction
pub mod Schedule
pub mod Promises
pub mod FutureRuns
pub mod Fates
pub mod Settled
pub mod Awaited
