-- ===== src/Tests/PoolSort.antt =====
-- The merge sort of four images on a pool.
use boost_threadpool.Common.{◌≡◌, refl, false, true, [], ◌∷◌, Perm, arith, inl, inr}
use boost_threadpool.Scheduling.Fifo.{fifo_lawful}
use boost_threadpool.Scheduling.Fifo
use boost_threadpool.Core.State.{at_most, none_active, pool_core}
use boost_threadpool.Core.Guard.{after_task}
use boost_threadpool.Core.Notify.{wake_at}
use boost_threadpool.Core.Tasks.{schedule}
use boost_threadpool.Core.Waiting.{is_busy, resume_wait, must_wait, wait}
use boost_threadpool.Core.Resize.{resize}
use boost_threadpool.Core.Execute.{execute_task, resume_task}
use boost_threadpool.Core.Shutdown.{Call, shutdown, perform, terminate_all_workers}
use boost_threadpool.System.Steps.{fetches, resumes, ends_task, client_resumes}
use boost_threadpool.Programs.Client.{scope, schedules_it, resizes_it, calls_it}
use boost_threadpool.Mergesort.Merge.{ascending}
use boost_threadpool.Mergesort.Program.{job, step_calls, step_loop, main, after_jobs}
use boost_threadpool.Mergesort.OnPool.{pool_sorts}
use boost_threadpool.Tests.Sessions.{Session, entered, issued, back, moved}

-- The system has one thread left; the client waits for the two jobs of the first step.
first_round : Session fifo_lawful (main 2)
unfolding scope shutdown perform pool_core schedule resize execute_task resume_task wait is_busy
    must_wait resume_wait terminate_all_workers wake_at after_task main step_loop step_calls
    Fifo.push Fifo.top Fifo.pop Fifo.empty Fifo.clear
first_round =
    issued
      (issued
        (issued
          (issued (issued entered _ (resizes_it 1 0 (omega arith)) refl refl) _
            (resizes_it 1 5 (omega arith)) refl refl)
          _ (schedules_it 0 (job 2 0) (inr refl) refl) refl refl)
        _ (schedules_it 0 (job 2 1) (inr refl) refl) refl refl)
      _ (calls_it Call.waits) refl refl

halves : Session fifo_lawful (main 2)
unfolding scope shutdown perform pool_core schedule resize execute_task resume_task wait is_busy
    must_wait resume_wait terminate_all_workers wake_at after_task main step_loop step_calls
    Fifo.push Fifo.top Fifo.pop Fifo.empty Fifo.clear first_round
halves =
    back
      (moved
        (moved
          (moved
            (moved
              (moved (moved first_round (fetches 0 refl refl) tt) (ends_task 0 (job 2 0) false refl)
                tt)
              (fetches 0 refl refl) tt)
            (ends_task 0 (job 2 1) false refl) tt)
          (fetches 0 refl refl) tt)
        (client_resumes 0 (at_most false 0) refl) tt)
      0 (at_most false 0) refl refl

-- The last job, and the shutdown.
second_round : Session fifo_lawful (main 2)
unfolding scope shutdown perform pool_core schedule resize execute_task resume_task wait is_busy
    must_wait resume_wait terminate_all_workers wake_at after_task main step_loop step_calls
    Fifo.push Fifo.top Fifo.pop Fifo.empty Fifo.clear halves
second_round =
    back
      (moved
        (moved
          (moved
            (moved
              (issued (issued halves _ (schedules_it 0 (job 4 0) (inl refl) refl) refl refl) _
                (calls_it Call.waits) refl refl)
              (resumes 0 refl refl) tt)
            (ends_task 0 (job 4 0) false refl) tt)
          (fetches 0 refl refl) tt)
        (client_resumes 1 (at_most false 0) refl) tt)
      1 (at_most false 0) refl refl

sorted : Session fifo_lawful (main 2)
unfolding scope shutdown perform pool_core schedule resize execute_task resume_task wait is_busy
    must_wait resume_wait terminate_all_workers wake_at after_task main step_loop step_calls
    Fifo.push Fifo.top Fifo.pop Fifo.empty Fifo.clear second_round
sorted =
    back
      (issued
        (back (issued second_round _ (calls_it Call.waits) refl refl) 2 (at_most false 0) refl refl)
        _ (calls_it (Call.terminates true)) refl refl)
      3 none_active refl refl

pool_sorts_example :
    (ascending (after_jobs sorted.log.finished (7 ∷ 5 ∷ 8 ∷ 1 ∷ [])) ≡ true)
    × Perm (7 ∷ 5 ∷ 8 ∷ 1 ∷ []) (after_jobs sorted.log.finished (7 ∷ 5 ∷ 8 ∷ 1 ∷ []))
unfolding sorted
pool_sorts_example = pool_sorts fifo_lawful 2 (7 ∷ 5 ∷ 8 ∷ 1 ∷ []) refl (λ t c. refl) sorted.run

sorted_images : after_jobs sorted.log.finished (7 ∷ 5 ∷ 8 ∷ 1 ∷ []) ≡ 1 ∷ 5 ∷ 7 ∷ 8 ∷ []
unfolding sorted after_jobs
sorted_images = refl
