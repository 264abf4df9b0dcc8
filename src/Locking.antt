-- ===== src/Locking.antt =====
-- boost/threadpool/detail/locking_ptr.hpp: the pointer by which the members of pool_core and future_impl
-- hold their monitor.
pub mod Pointer
pub mod Atomic
