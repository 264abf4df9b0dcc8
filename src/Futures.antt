-- ===== src/Futures.antt =====
-- boost/threadpool/future.hpp and boost/threadpool/detail/future.hpp: a result that a pool's task
-- hands over, and its cancellation.
pub mod Impl
pub mod Run
pub mod Laws
pub mod Cancelling
pub mod Waiting
pub mod Answers
