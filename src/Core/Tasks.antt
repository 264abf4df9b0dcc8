-- ===== src/Core/Tasks.antt =====
-- pool_core.hpp: schedule, active, pending, clear, empty and size.
use boost_threadpool.Common.{ℕ, Bool, true, false, if◌then◌else◌}
use boost_threadpool.Scheduling.Interface.{Scheduler}
use boost_threadpool.Core.State.{Pool}
use boost_threadpool.Core.Notify.{notify_one_worker}

module _ {Task Container : Type 0} where
  unfoldable pub size : Pool Task Container → ℕ
  size p = p.worker_count

  unfoldable pub active : Pool Task Container → ℕ
  active p = p.active_worker_count

module _ {Task Container : Type 0} (S : Scheduler Task Container) where
  -- `chosen` is the worker that notify_one wakes.
  unfoldable pub schedule : ℕ → Task → Pool Task Container → Pool Task Container × Bool
  unfolding notify_one_worker
  schedule chosen task p =
      let (c, pushed) = S.push task p.scheduler in
      if pushed
      then (notify_one_worker chosen (record p { scheduler = c }), true)
      else (record p { scheduler = c }, false)

  unfoldable pub pending : Pool Task Container → ℕ
  pending p = S.size p.scheduler

  unfoldable pub clear : Pool Task Container → Pool Task Container
  clear p = record p { scheduler = S.clear p.scheduler }

  unfoldable pub empty : Pool Task Container → Bool
  empty p = S.empty p.scheduler
