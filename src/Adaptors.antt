-- ===== src/Adaptors.antt =====
-- boost/threadpool/task_adaptors.hpp: prio_task_func and looped_task_func.
pub mod Prio
pub mod Order
pub mod Looped
