-- ===== src/ThreadPool/Kinds.antt =====
-- The kinds of pool that boost/threadpool/pool.hpp names, by their scheduling policy and their shutdown policy.
-- All of them have static_size and resize_controller.
use boost_threadpool.Common.{List}
use boost_threadpool.Scheduling.Interface.{Scheduler}
use boost_threadpool.Scheduling.Fifo.{fifo_scheduler}
use boost_threadpool.Scheduling.Lifo.{lifo_scheduler}
use boost_threadpool.Scheduling.Prio.{prio_scheduler}
use boost_threadpool.Adaptors.Prio.{PrioTask, less}
use boost_threadpool.Core.Shutdown.{ShutdownPolicy, wait_for_all_tasks}

pub record PoolKind (Task Container : Type 0) : Type 0 where
  pub scheduler : Scheduler Task Container
  pub shutdown_policy : ShutdownPolicy

abbrev pub fifo_pool : (Task : Type 0) → PoolKind Task (List Task)
fifo_pool Task = record { scheduler = fifo_scheduler; shutdown_policy = wait_for_all_tasks }

abbrev pub lifo_pool : (Task : Type 0) → PoolKind Task (List Task)
lifo_pool Task = record { scheduler = lifo_scheduler; shutdown_policy = wait_for_all_tasks }

abbrev pub prio_pool : (Function : Type 0) → PoolKind (PrioTask Function) (List (PrioTask Function))
prio_pool Function = record {
  scheduler = prio_scheduler less;
  shutdown_policy = wait_for_all_tasks;
}

-- The standard pool.
abbrev pub pool : (Task : Type 0) → PoolKind Task (List Task)
pool Task = fifo_pool Task
