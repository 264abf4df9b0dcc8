-- ===== src/ThreadPool/Members.antt =====
-- The members of thread_pool. Each calls the member of pool_core of the same name.
use boost_threadpool.Common.{ℕ, Bool}
use boost_threadpool.Scheduling.Interface.{Scheduler}
use boost_threadpool.Core.State.{Pool, pool_core}
use boost_threadpool.Core.Resize.{size_policy_init}
use boost_threadpool.Core.Tasks
use boost_threadpool.Core.Waiting
use boost_threadpool.ThreadPool.Sizes.{resize_controller_resize}

-- The core is shared by all copies of a pool.
pub record ThreadPool (Task Container : Type 0) : Type 0 where
  pub core : Pool Task Container

module _ {Task Container : Type 0} (S : Scheduler Task Container) where
  -- The constructor.
  unfoldable pub thread_pool : (threads initial_threads : ℕ) → ThreadPool Task Container
  unfolding size_policy_init
  thread_pool threads initial_threads = record {
    core = size_policy_init threads initial_threads (pool_core S);
  }

  unfoldable pub schedule : ℕ → Task → ThreadPool Task Container → ThreadPool Task Container × Bool
  unfolding Tasks.schedule
  schedule chosen task tp =
      let (q, scheduled) = Tasks.schedule S chosen task tp.core in
      (record tp { core = q }, scheduled)

  unfoldable pub pending : ThreadPool Task Container → ℕ
  unfolding Tasks.pending
  pending tp = Tasks.pending S tp.core

  unfoldable pub clear : ThreadPool Task Container → ThreadPool Task Container
  unfolding Tasks.clear
  clear tp = record tp { core = Tasks.clear S tp.core }

  unfoldable pub empty : ThreadPool Task Container → Bool
  unfolding Tasks.empty
  empty tp = Tasks.empty S tp.core

  unfoldable pub wait : ℕ → ThreadPool Task Container → ThreadPool Task Container
  unfolding Waiting.wait
  wait task_threshold tp = record tp { core = Waiting.wait S task_threshold tp.core }

  unfoldable pub timed_wait : ℕ → ThreadPool Task Container → ThreadPool Task Container
  unfolding Waiting.timed_wait
  timed_wait task_threshold tp = record tp { core = Waiting.timed_wait S task_threshold tp.core }

module _ {Task Container : Type 0} where
  unfoldable pub size : ThreadPool Task Container → ℕ
  unfolding Tasks.size
  size tp = Tasks.size tp.core

  unfoldable pub active : ThreadPool Task Container → ℕ
  unfolding Tasks.active
  active tp = Tasks.active tp.core

  -- size_controller().resize(worker_count)
  unfoldable pub resize :
      (threads worker_count : ℕ) → ThreadPool Task Container → ThreadPool Task Container × Bool
  unfolding resize_controller_resize
  resize threads worker_count tp =
      let (q, done) = resize_controller_resize threads worker_count tp.core in
      (record tp { core = q }, done)
