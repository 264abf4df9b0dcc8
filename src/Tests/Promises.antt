-- ===== src/Tests/Promises.antt =====
-- A pool with two tasks for futures, the second of which is cancelled before it begins.
use boost_threadpool.Common.{
  ℕ, refl, Bool, true, false, List, [], ◌∷◌, Perm, All, arith, inr, if◌then◌else◌, ◌==◌,
}
use boost_threadpool.Scheduling.Fifo.{fifo_scheduler, fifo_lawful}
use boost_threadpool.Scheduling.Fifo
use boost_threadpool.Core.State.{pool_core}
use boost_threadpool.Core.Guard.{after_task}
use boost_threadpool.Core.Notify.{wake_at}
use boost_threadpool.Core.Tasks.{schedule}
use boost_threadpool.Core.Waiting.{is_busy, must_wait}
use boost_threadpool.Core.Resize.{resize}
use boost_threadpool.Core.Execute.{execute_task}
use boost_threadpool.System.Steps.{Event, Log, log_event, resizes, fetches}
use boost_threadpool.Futures.Impl.{
  asked, deciding, future_impl, accepts_value, store_result, store_ready, cancel_access,
  is_cancelled, set_execution_status,
}
use boost_threadpool.Futures.Run.{
  begins, proceeds, skips, returns, accepts, stores, marks, ends, asks_cancel, cancels,
}
use boost_threadpool.ThreadPool.Schedule.{FutureTask}
use boost_threadpool.ThreadPool.FutureRuns.{
  FutureWorld, normally, FutureStep, schedules_future, pool_moves, computes, cancels_future,
  ends_task, FutureReach, begun, moved,
}
use boost_threadpool.ThreadPool.Settled.{Kept}
use boost_threadpool.ThreadPool.Awaited.{awaited_futures}

-- The functions of the tutorial: task_int_23 and task_int_1.
data IntTask : Type 0 where
  task_int_23 task_int_1 : IntTask

abbrev returned_value : ℕ → ℕ
returned_value i = if i == 0 then 23 else 1

abbrev set_function : ℕ → Bool
set_function i = true

abbrev task : IntTask → ℕ → FutureTask IntTask
task f i = record { function = f; future = i }

record History : Type 0 where
  world : FutureWorld ℕ IntTask (List (FutureTask IntTask))
  log : Log (FutureTask IntTask)
  reach : FutureReach fifo_lawful returned_value set_function world log

abbrev first : History
first = record { world = _; log = _; reach = begun }

abbrev and_then :
    (h : History) {e : Event (FutureTask IntTask)}
    {w : FutureWorld ℕ IntTask (List (FutureTask IntTask))}
    → FutureStep fifo_scheduler returned_value set_function h.world e w
    → History
and_then h {e} {w} st = record {
  world = w;
  log = log_event fifo_lawful h.world.pool e h.log;
  reach = moved h.reach st;
}

-- One worker; two futures, and the second is cancelled.
promised : History
unfolding pool_core schedule resize execute_task wake_at after_task Fifo.push Fifo.top Fifo.pop
    Fifo.empty Fifo.clear future_impl accepts_value store_result store_ready cancel_access
    is_cancelled set_execution_status
promised =
    and_then
      (and_then
        (and_then
          (and_then
            (and_then (and_then first (pool_moves (resizes 1 1 (omega arith)) tt))
              (schedules_future 0 0 false task_int_23 (inr refl) refl))
            (schedules_future 0 0 false task_int_1 (inr refl) refl))
          (cancels_future 1 _ refl asks_cancel tt))
        (cancels_future 1 _ refl (cancels 0 asked refl) tt))
      (cancels_future 1 _ refl (cancels 0 deciding refl) tt)

-- The first task is executed.
computed : History
unfolding pool_core schedule resize execute_task wake_at after_task Fifo.push Fifo.top Fifo.pop
    Fifo.empty Fifo.clear future_impl accepts_value store_result store_ready cancel_access
    is_cancelled set_execution_status promised
computed =
    and_then
      (and_then
        (and_then
          (and_then
            (and_then
              (and_then
                (and_then
                  (and_then (and_then promised (pool_moves (fetches 0 refl refl) tt))
                    (computes 0 (task task_int_23 0) _ refl refl begins refl))
                  (computes 0 (task task_int_23 0) _ refl refl (proceeds refl) tt))
                (computes 0 (task task_int_23 0) _ refl refl returns tt))
              (computes 0 (task task_int_23 0) _ refl refl (accepts refl) tt))
            (computes 0 (task task_int_23 0) _ refl refl stores tt))
          (computes 0 (task task_int_23 0) _ refl refl marks tt))
        (computes 0 (task task_int_23 0) _ refl refl ends tt))
      (ends_task 0 (task task_int_23 0) _ false refl refl normally)

-- The second task finds its future cancelled, and the worker goes to sleep.
awaited : History
unfolding pool_core schedule resize execute_task wake_at after_task Fifo.push Fifo.top Fifo.pop
    Fifo.empty Fifo.clear future_impl accepts_value store_result store_ready cancel_access
    is_cancelled set_execution_status computed
awaited =
    and_then
      (and_then
        (and_then
          (and_then
            (and_then (and_then computed (pool_moves (fetches 0 refl refl) tt))
              (computes 0 (task task_int_1 1) _ refl refl begins refl))
            (computes 0 (task task_int_1 1) _ refl refl (skips refl) tt))
          (computes 0 (task task_int_1 1) _ refl refl ends tt))
        (ends_task 0 (task task_int_1 1) _ false refl refl normally))
      (pool_moves (fetches 0 refl refl) tt)

awaited_futures_example :
    Perm (task task_int_1 1 ∷ task task_int_23 0 ∷ []) (task task_int_1 1 ∷ task task_int_23 0 ∷ [])
    × All
        (Kept fifo_lawful returned_value set_function awaited.world.calls)
        (task task_int_1 1 ∷ task task_int_23 0 ∷ [])
unfolding awaited must_wait is_busy Fifo.empty
awaited_futures_example =
    awaited_futures fifo_lawful returned_value set_function false awaited.reach refl
