-- ===== src/Scheduling.antt =====
-- boost/threadpool/scheduling_policies.hpp: the task containers, and the interface by which the
-- pool uses one. `Interface` is the concept, `Fifo`, `Lifo` and `Prio` the policies over the
-- standard containers of `Containers`.
pub mod Interface
pub mod Containers
pub mod Laws
pub mod Runs
pub mod Fifo
pub mod Lifo
pub mod Prio
pub mod Order
