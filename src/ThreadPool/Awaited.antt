-- ===== src/ThreadPool/Awaited.antt =====
-- The futures of a pool that has been waited for.
use boost_threadpool.Common.{ℕ, ◌≡◌, Bool, true, false, ◌++◌, Perm, All}
use boost_threadpool.Scheduling.Interface.{Scheduler, Lawful}
use boost_threadpool.Core.State.{at_most}
use boost_threadpool.Core.Waiting.{must_wait}
use boost_threadpool.System.Steps.{Log, log_event, Reach}
use boost_threadpool.System.Steps
use boost_threadpool.System.Completion.{wait_completes}
use boost_threadpool.ThreadPool.Schedule.{FutureTask}
use boost_threadpool.ThreadPool.FutureRuns.{
  FutureWorld, schedules_future, schedules_in_vain, pool_moves, computes, cancels_future, ends_task,
  FutureReach, begun, moved,
}
use boost_threadpool.ThreadPool.Settled.{Kept, finished-Kept}

module _ {Result Function Container : Type 0} {S : Scheduler (FutureTask Function) Container}
    (L : Lawful S) (value : ℕ → Result) (holds : ℕ → Bool) where
  -- The pool of such a world is a pool like any other.
  FutureReach-Reach :
      {w : FutureWorld Result Function Container} {l : Log (FutureTask Function)}
      → FutureReach L value holds w l
      → Reach L (λ t. true) w.pool l
  FutureReach-Reach begun = Steps.start
  FutureReach-Reach (moved r (schedules_future chosen junk executing f pick h)) =
      Steps.later (FutureReach-Reach r) (Steps.Step.schedules chosen _ pick h)
  FutureReach-Reach (moved r (schedules_in_vain chosen junk executing f h)) =
      Steps.later (FutureReach-Reach r) (Steps.Step.refuses chosen _ h)
  FutureReach-Reach (moved r (pool_moves st b)) = Steps.later (FutureReach-Reach r) st
  FutureReach-Reach (moved r (computes worker t c h k st b)) = FutureReach-Reach r
  FutureReach-Reach (moved r (cancels_future i c h st b)) = FutureReach-Reach r
  FutureReach-Reach (moved r (ends_task worker t c by_throw h k e)) =
      Steps.later (FutureReach-Reach r) (Steps.Step.ends_task worker t by_throw h)

  -- In every world that a pool with tasks for futures reaches, whatever the workers, the clients and
  -- cancellations do, when a `wait` for all tasks need not wait: the tasks that the pool accepted are, each
  -- once, the finished ones and those that `clear` removed; and each finished task has a future, and
  -- its function has thrown, or the future has its value or was cancelled, if there was a function to
  -- call; and if the future is ready, it holds what the function of its own task returned.
  pub awaited_futures :
      {w : FutureWorld Result Function Container} {l : Log (FutureTask Function)} (timed : Bool)
      → FutureReach L value holds w l
      → must_wait S (at_most timed 0) w.pool ≡ false
      → Perm l.scheduled (l.finished ++ l.dropped) × All (Kept L value holds w.calls) l.finished
  awaited_futures timed r h =
      let (_, _, perm) = wait_completes L timed (FutureReach-Reach r) h in
      (perm, finished-Kept L value holds r)
