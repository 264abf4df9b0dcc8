-- ===== src/ThreadPool/FutureRuns.antt =====
-- A pool whose tasks compute futures: schedule of boost/threadpool/future.hpp, the workers that execute the
-- tasks access by access, and clients that cancel.
use boost_threadpool.Common.{
  ℕ, ◌≡◌, Bool, true, false, some, List, [], ◌∷◌, ◌++◌, length, get_elem?, set,
}
use boost_threadpool.Scheduling.Interface.{Scheduler, Lawful}
use boost_threadpool.Core.State.{running, Pool, pool_core, set_worker}
use boost_threadpool.Core.Guard.{after_task}
use boost_threadpool.Core.Tasks.{schedule}
use boost_threadpool.System.Steps.{
  Event, quiet, accepted, emptied, fetched, ended, Picks, Log, log_event,
}
use boost_threadpool.System.Steps
use boost_threadpool.Futures.Impl.{FutureImpl, Canceller, future_impl}
use boost_threadpool.Futures.Run.{
  Point, pending, over, thrown, Call, Step, begins, passes, proceeds, skips, returns, throws,
  accepts, drops, stores, marks, ends, asks_cancel, cancels,
}
use boost_threadpool.ThreadPool.Schedule.{FutureTask}

-- The call of each task's operator(), with its future_impl, by the place that the task has.
pub record FutureWorld (Result Function Container : Type 0) : Type 0 where
  pub calls : List (Call Result)
  pub pool : Pool (FutureTask Function) Container

module _ {Result Function Container : Type 0} where
  -- The task that schedule makes for a function.
  abbrev pub task_for : Function → FutureWorld Result Function Container → FutureTask Function
  task_for f w = record { function = f; future = length w.calls }

  abbrev pub with_new :
      (junk : Result) (executing : Bool)
      → FutureWorld Result Function Container
      → List (Call Result)
  with_new junk executing w =
      w.calls
      ++ record { point = pending; future = future_impl junk executing; cancellers = [] } ∷ []

-- The steps of the pool by itself: all but `schedule` and the end of a task.
abbrev pub ByItself : {Task : Type 0} → Event Task → Type 0
ByItself quiet = Unit
ByItself (accepted t) = ⊥
ByItself emptied = Unit
ByItself (fetched o) = Unit
ByItself (ended t) = ⊥

-- The accesses of a worker: the task begins when it holds a function, and passes when it does not.
abbrev pub ByWorker :
    {Result : Type 0} {value : Result} {f : FutureImpl Result} {cs : List Canceller}
    {p : Point Result} {d : Call Result}
    → (holds : Bool) → Step value f cs p d
    → Type 0
ByWorker holds begins = holds ≡ true
ByWorker holds passes = holds ≡ false
ByWorker holds (proceeds h) = Unit
ByWorker holds (skips h) = Unit
ByWorker holds returns = Unit
ByWorker holds throws = Unit
ByWorker holds (accepts h) = Unit
ByWorker holds (drops h) = Unit
ByWorker holds stores = Unit
ByWorker holds marks = Unit
ByWorker holds ends = Unit
ByWorker holds asks_cancel = ⊥
ByWorker holds (cancels i k h) = ⊥

-- The accesses of clients that cancel.
abbrev pub ByClient :
    {Result : Type 0} {value : Result} {f : FutureImpl Result} {cs : List Canceller}
    {p : Point Result} {d : Call Result}
    → Step value f cs p d
    → Type 0
ByClient begins = ⊥
ByClient passes = ⊥
ByClient (proceeds h) = ⊥
ByClient (skips h) = ⊥
ByClient returns = ⊥
ByClient throws = ⊥
ByClient (accepts h) = ⊥
ByClient (drops h) = ⊥
ByClient stores = ⊥
ByClient marks = ⊥
ByClient ends = ⊥
ByClient asks_cancel = Unit
ByClient (cancels i k h) = Unit

-- How operator() has ended: by an exception or not.
pub data Ended {Result : Type 0} : Point Result → Bool → Type 0 where
  normally : Ended over false
  by_exception : Ended thrown true

-- `value` is what the function of the task for a future returns, and `holds` says whether there is one.
pub data FutureStep {Result Function Container : Type 0}
    (S : Scheduler (FutureTask Function) Container) (value : ℕ → Result) (holds : ℕ → Bool)
    (w : FutureWorld Result Function Container)
    : Event (FutureTask Function) → FutureWorld Result Function Container → Type 0 where
  schedules_future :
      (chosen : ℕ) (junk : Result) (executing : Bool) (f : Function)
      → Picks chosen w.pool.workers
      → (schedule S chosen (task_for f w) w.pool).1 ≡ true
      → FutureStep S value holds w (accepted (task_for f w)) (record {
        calls = with_new junk executing w;
        pool = (schedule S chosen (task_for f w) w.pool).0;
      })
  schedules_in_vain :
      (chosen : ℕ) (junk : Result) (executing : Bool) (f : Function)
      → (schedule S chosen (task_for f w) w.pool).1 ≡ false
      → FutureStep S value holds w quiet (record {
        calls = with_new junk executing w;
        pool = (schedule S chosen (task_for f w) w.pool).0;
      })
  pool_moves :
      {e : Event (FutureTask Function)} {q : Pool (FutureTask Function) Container}
      → Steps.Step S (λ t. true) w.pool e q
      → ByItself e
      → FutureStep S value holds w e (record w { pool = q })
  computes :
      (worker : ℕ) (t : FutureTask Function) (c : Call Result) {d : Call Result}
      → get_elem? w.pool.workers worker ≡ some (running t)
      → get_elem? w.calls t.future ≡ some c
      → (st : Step (value t.future) c.future c.cancellers c.point d) → ByWorker (holds t.future) st
      → FutureStep S value holds w quiet (record w { calls = set w.calls t.future d })
  cancels_future :
      (i : ℕ) (c : Call Result) {d : Call Result}
      → get_elem? w.calls i ≡ some c
      → (st : Step (value i) c.future c.cancellers c.point d) → ByClient st
      → FutureStep S value holds w quiet (record w { calls = set w.calls i d })
  ends_task :
      (worker : ℕ) (t : FutureTask Function) (c : Call Result) (by_throw : Bool)
      → get_elem? w.pool.workers worker ≡ some (running t)
      → get_elem? w.calls t.future ≡ some c
      → Ended c.point by_throw
      → FutureStep S value holds w
          (ended t)
          (record w { pool = set_worker worker (after_task (λ u. true) by_throw t) w.pool })

-- The worlds from the construction of the pool on.
pub data FutureReach {Result Function Container : Type 0}
    {S : Scheduler (FutureTask Function) Container} (L : Lawful S) (value : ℕ → Result)
    (holds : ℕ → Bool)
    : FutureWorld Result Function Container → Log (FutureTask Function) → Type 0 where
  begun :
      FutureReach L value holds
        (record { calls = []; pool = pool_core S })
        (record { scheduled = []; started = []; dropped = []; finished = [] })
  moved :
      {w v : FutureWorld Result Function Container} {l : Log (FutureTask Function)}
      {e : Event (FutureTask Function)}
      → FutureReach L value holds w l
      → FutureStep S value holds w e v
      → FutureReach L value holds v (log_event L w.pool e l)
