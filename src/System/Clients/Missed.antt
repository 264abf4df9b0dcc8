-- ===== src/System/Clients/Missed.antt =====
-- The two operations that give a client what it waits for, and notify nobody.
use boost_threadpool.Common.{
  ℕ, zero, suc, ◌+◌, ◌≤◌, ◌<◌, ◌≡◌, Bool, true, false, some, arith, get_elem?, size_mod, le→ltb,
}
use boost_threadpool.Scheduling.Interface.{Scheduler, Lawful}
use boost_threadpool.Scheduling.Laws.{size-pop, size-clear}
use boost_threadpool.Core.State.{running, at_most, blocked, Pool, set_worker}
use boost_threadpool.Core.Tasks.{clear}
use boost_threadpool.Core.Waiting.{must_wait}
use boost_threadpool.Core.Execute.{took, take_task, await_task, execute_task}

module _ {Task Container : Type 0} {S : Scheduler Task Container} (L : Lawful S) where
  -- `clear` in a pool with no active worker fulfils the condition of every `wait`, and leaves a client
  -- that sleeps in one asleep.
  pub clear_strands :
      (p : Pool Task Container) (i k : ℕ) (timed : Bool)
      → p.active_worker_count ≡ 0
      → get_elem? p.clients i ≡ some (blocked (at_most timed k))
      → (must_wait S (at_most timed k) (clear S p) ≡ false)
        × (get_elem? (clear S p).clients i ≡ some (blocked (at_most timed k)))
  unfolding must_wait clear
  clear_strands p i zero timed a h =
      (ground (arith, size-clear L p.scheduler, L.empty_size (S.clear p.scheduler)), h)
  clear_strands p i (suc k) timed a h = (ground (arith, size-clear L p.scheduler), h)

  -- A worker that fetches a task lowers the sum of active workers and pending tasks to a positive
  -- threshold, and leaves a client that waits for just that asleep.
  pub take_strands :
      (p : Pool Task Container) (w i k : ℕ) (timed : Bool)
      → p.worker_count ≤ p.target_worker_count
      → S.empty p.scheduler ≡ false
      → p.active_worker_count + S.size p.scheduler ≡ suc k + 1
      → suc k + 1 < size_mod
      → get_elem? p.clients i ≡ some (blocked (at_most timed (suc k)))
      → (t : Task) × (q : Pool Task Container) × (execute_task S w p ≡ some (q, took t))
        × (must_wait S (at_most timed (suc k)) p ≡ true)
        × (must_wait S (at_most timed (suc k)) q ≡ false)
        × (get_elem? q.clients i ≡ some (blocked (at_most timed (suc k))))
  unfolding must_wait execute_task await_task take_task
  take_strands p w i k timed c e sum b h =
      let (t, d, top, pop, _) = L.takes p.scheduler e in
      let s = size-pop L p.scheduler d t e top pop in
      (
        t,
        set_worker w (running t) (record p { scheduler = d }),
        rw (le→ltb p.target_worker_count p.worker_count c, e)
            (rw (top, take_task) (rw (pop, take_task))),
        ground arith,
        ground (arith, s),
        h,
      )
