-- ===== src/ThreadPool/Schedule.antt =====
-- The schedule functions: those of boost/threadpool/pool_adaptors.hpp, and the one of
-- boost/threadpool/future.hpp, which makes a future, and a task for it.
use boost_threadpool.Common.{ℕ, Bool, List, [], ◌∷◌, ◌++◌, length}
use boost_threadpool.Scheduling.Interface.{Scheduler}
use boost_threadpool.Core.State.{Pool}
use boost_threadpool.Core.Tasks.{schedule}
use boost_threadpool.Futures.Impl.{FutureImpl, future_impl}

module _ {Task Container : Type 0} (S : Scheduler Task Container) where
  -- schedule(pool, task), also through a shared pointer to the pool
  unfoldable pub schedule_task : ℕ → Task → Pool Task Container → Pool Task Container × Bool
  unfolding schedule
  schedule_task chosen task p = schedule S chosen task p

  -- schedule(pool, obj), where `bind_run` makes the task bind(&Runnable::run, obj)
  unfoldable pub schedule_runnable :
      {Runnable : Type 0}
      → (Runnable → Task)
      → ℕ
      → Runnable
      → Pool Task Container
      → Pool Task Container × Bool
  unfolding schedule
  schedule_runnable bind_run chosen obj p = schedule S chosen (bind_run obj) p

-- future_impl_task_func: a function, and the shared future_impl by its place in the store.
pub record FutureTask (Function : Type 0) : Type 0 where
  pub function : Function
  pub future : ℕ

-- A pool of such tasks, with the future_impls that were made.
pub record FuturePool (Result Function Container : Type 0) : Type 0 where
  pub store : List (FutureImpl Result)
  pub pool : Pool (FutureTask Function) Container

module _ {Result Function Container : Type 0} (S : Scheduler (FutureTask Function) Container) where
  -- schedule of future.hpp. It returns the future, by the place of its future_impl, and does not look at
  -- what pool.schedule returns. `junk` and `executing` are in the members that future_impl leaves alone.
  unfoldable pub schedule_future :
      ℕ
      → (junk : Result) (executing : Bool) → Function
      → FuturePool Result Function Container
      → FuturePool Result Function Container × ℕ
  unfolding schedule future_impl
  schedule_future chosen junk executing task p =
      let impl = length p.store in
      (
        record p {
          store = p.store ++ future_impl junk executing ∷ [];
          pool = (schedule S chosen (record { function = task; future = impl }) p.pool).0;
        },
        impl,
      )
