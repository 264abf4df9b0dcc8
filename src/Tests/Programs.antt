-- ===== src/Tests/Programs.antt =====
-- Programs run to their ends.
use mathlib.Core.List.{reverse}
use boost_threadpool.Common.{
  ◌≡◌, refl, false, true, some, List, [], ◌∷◌, ◌⊎◌, Perm, arith, inr, inl, map,
}
use boost_threadpool.Scheduling.Containers.{select}
use boost_threadpool.Scheduling.Fifo.{fifo_scheduler, fifo_lawful}
use boost_threadpool.Scheduling.Fifo
use boost_threadpool.Scheduling.Lifo.{lifo_scheduler, lifo_lawful}
use boost_threadpool.Scheduling.Lifo
use boost_threadpool.Scheduling.Prio.{prio_scheduler, prio_lawful}
use boost_threadpool.Scheduling.Prio
use boost_threadpool.Scheduling.Runs.{push_all, take_all}
use boost_threadpool.Adaptors.Prio.{prio_task_func, less}
use boost_threadpool.Core.State.{at_most, none_active, Pool, pool_core}
use boost_threadpool.Core.Guard.{after_task}
use boost_threadpool.Core.Notify.{wake_at}
use boost_threadpool.Core.Tasks.{schedule}
use boost_threadpool.Core.Waiting.{is_busy, resume_wait, must_wait, wait}
use boost_threadpool.Core.Resize.{resize}
use boost_threadpool.Core.Execute.{execute_task}
use boost_threadpool.Core.Shutdown.{Call, shutdown, perform, terminate_all_workers}
use boost_threadpool.System.Completion.{acts, wait_progress}
use boost_threadpool.System.Steps.{Event, Step, fetches, ends_task, client_resumes}
use boost_threadpool.Programs.Client.{
  resize_to, call, schedule_task, scope, Run-Reach, schedules_it, resizes_it, calls_it,
}
use boost_threadpool.Programs.Done.{Done}
use boost_threadpool.Programs.Completion.{scope_finishes}
use boost_threadpool.Programs.Divided.{InBatches}
use boost_threadpool.Programs.Batches.{batches_finish}
use boost_threadpool.Programs.Backlog.{backlog_order}
use boost_threadpool.Programs.Examples.{
  task_1, task_2, task_3, QuickstartTask, first_task, second_task, controlling_scheduling,
  prioritized_tasks, quickstart, prioritized_tasks_order,
}
use boost_threadpool.Tests.Sessions.{every, Session, entered, issued, back, moved}

-- The system has one thread left; the client waits for both tasks.
quickstart_waits : Session fifo_lawful quickstart
unfolding scope shutdown perform pool_core schedule resize execute_task wait is_busy must_wait
    resume_wait terminate_all_workers wake_at after_task quickstart Fifo.push Fifo.top Fifo.pop
    Fifo.empty Fifo.clear
quickstart_waits =
    issued
      (issued
        (issued (issued entered _ (resizes_it 1 2 (omega arith)) refl refl) _
          (schedules_it 0 first_task (inr refl) refl) refl refl)
        _ (schedules_it 0 second_task (inr refl) refl) refl refl)
      _ (calls_it Call.waits) refl refl

quickstart_worked : Session fifo_lawful quickstart
unfolding scope shutdown perform pool_core schedule resize execute_task wait is_busy must_wait
    resume_wait terminate_all_workers wake_at after_task quickstart Fifo.push Fifo.top Fifo.pop
    Fifo.empty Fifo.clear quickstart_waits
quickstart_worked =
    moved
      (moved
        (moved (moved quickstart_waits (fetches 0 refl refl) tt) (ends_task 0 first_task false refl)
          tt)
        (fetches 0 refl refl) tt)
      (ends_task 0 second_task false refl) tt

quickstart_done : Session fifo_lawful quickstart
unfolding scope shutdown perform pool_core schedule resize execute_task wait is_busy must_wait
    resume_wait terminate_all_workers wake_at after_task quickstart Fifo.push Fifo.top Fifo.pop
    Fifo.empty Fifo.clear quickstart_worked
quickstart_done =
    back
      (moved (moved quickstart_worked (fetches 0 refl refl) tt)
        (client_resumes 0 (at_most false 0) refl) tt)
      0 (at_most false 0) refl refl

quickstart_over : Session fifo_lawful quickstart
unfolding scope shutdown perform pool_core schedule resize execute_task wait is_busy must_wait
    resume_wait terminate_all_workers wake_at after_task quickstart Fifo.push Fifo.top Fifo.pop
    Fifo.empty Fifo.clear quickstart_done
quickstart_over =
    back
      (issued
        (back (issued quickstart_done _ (calls_it Call.waits) refl refl) 1 (at_most false 0) refl
          refl)
        _ (calls_it (Call.terminates true)) refl refl)
      2 none_active refl refl

-- The system has one thread left.
lifo_waits : Session lifo_lawful controlling_scheduling
unfolding scope shutdown perform pool_core schedule resize execute_task wait is_busy must_wait
    resume_wait terminate_all_workers wake_at after_task controlling_scheduling Lifo.push Lifo.top
    Lifo.pop Lifo.empty Lifo.clear
lifo_waits =
    issued
      (issued
        (issued
          (issued
            (issued (issued entered _ (resizes_it 1 0 (omega arith)) refl refl) _
              (schedules_it 0 task_1 (inr refl) refl) refl refl)
            _ (schedules_it 0 task_2 (inr refl) refl) refl refl)
          _ (schedules_it 0 task_3 (inr refl) refl) refl refl)
        _ (resizes_it 1 5 (omega arith)) refl refl)
      _ (calls_it Call.waits) refl refl

lifo_worked : Session lifo_lawful controlling_scheduling
unfolding scope shutdown perform pool_core schedule resize execute_task wait is_busy must_wait
    resume_wait terminate_all_workers wake_at after_task controlling_scheduling Lifo.push Lifo.top
    Lifo.pop Lifo.empty Lifo.clear lifo_waits
lifo_worked =
    moved
      (moved
        (moved
          (moved
            (moved (moved lifo_waits (fetches 0 refl refl) tt) (ends_task 0 task_3 false refl) tt)
            (fetches 0 refl refl) tt)
          (ends_task 0 task_2 false refl) tt)
        (fetches 0 refl refl) tt)
      (ends_task 0 task_1 false refl) tt

lifo_done : Session lifo_lawful controlling_scheduling
unfolding scope shutdown perform pool_core schedule resize execute_task wait is_busy must_wait
    resume_wait terminate_all_workers wake_at after_task controlling_scheduling Lifo.push Lifo.top
    Lifo.pop Lifo.empty Lifo.clear lifo_worked
lifo_done =
    back
      (moved (moved lifo_worked (fetches 0 refl refl) tt) (client_resumes 0 (at_most false 0) refl)
        tt)
      0 (at_most false 0) refl refl

lifo_over : Session lifo_lawful controlling_scheduling
unfolding scope shutdown perform pool_core schedule resize execute_task wait is_busy must_wait
    resume_wait terminate_all_workers wake_at after_task controlling_scheduling Lifo.push Lifo.top
    Lifo.pop Lifo.empty Lifo.clear lifo_done
lifo_over =
    back
      (issued
        (back (issued lifo_done _ (calls_it Call.waits) refl refl) 1 (at_most false 0) refl refl) _
        (calls_it (Call.terminates true)) refl refl)
      2 none_active refl refl

-- The system has one thread left.
prio_waits : Session (prio_lawful less) prioritized_tasks
unfolding scope shutdown perform pool_core schedule resize execute_task wait is_busy must_wait
    resume_wait terminate_all_workers wake_at after_task prioritized_tasks prio_task_func Prio.push
    Prio.top Prio.pop Prio.empty Prio.clear select less
prio_waits =
    issued
      (issued
        (issued
          (issued
            (issued (issued entered _ (resizes_it 1 0 (omega arith)) refl refl) _
              (schedules_it 0 (prio_task_func 1 (some task_1)) (inr refl) refl) refl refl)
            _ (schedules_it 0 (prio_task_func 10 (some task_2)) (inr refl) refl) refl refl)
          _ (schedules_it 0 (prio_task_func 5 (some task_3)) (inr refl) refl) refl refl)
        _ (resizes_it 1 10 (omega arith)) refl refl)
      _ (calls_it Call.waits) refl refl

prio_worked : Session (prio_lawful less) prioritized_tasks
unfolding scope shutdown perform pool_core schedule resize execute_task wait is_busy must_wait
    resume_wait terminate_all_workers wake_at after_task prioritized_tasks prio_task_func Prio.push
    Prio.top Prio.pop Prio.empty Prio.clear select less prio_waits
prio_worked =
    moved
      (moved
        (moved
          (moved
            (moved (moved prio_waits (fetches 0 refl refl) tt)
              (ends_task 0 (prio_task_func 10 (some task_2)) false refl) tt)
            (fetches 0 refl refl) tt)
          (ends_task 0 (prio_task_func 5 (some task_3)) false refl) tt)
        (fetches 0 refl refl) tt)
      (ends_task 0 (prio_task_func 1 (some task_1)) false refl) tt

prio_done : Session (prio_lawful less) prioritized_tasks
unfolding scope shutdown perform pool_core schedule resize execute_task wait is_busy must_wait
    resume_wait terminate_all_workers wake_at after_task prioritized_tasks prio_task_func Prio.push
    Prio.top Prio.pop Prio.empty Prio.clear select less prio_worked
prio_done =
    back
      (moved (moved prio_worked (fetches 0 refl refl) tt) (client_resumes 0 (at_most false 0) refl)
        tt)
      0 (at_most false 0) refl refl

prio_over : Session (prio_lawful less) prioritized_tasks
unfolding scope shutdown perform pool_core schedule resize execute_task wait is_busy must_wait
    resume_wait terminate_all_workers wake_at after_task prioritized_tasks prio_task_func Prio.push
    Prio.top Prio.pop Prio.empty Prio.clear select less prio_done
prio_over =
    back
      (issued
        (back (issued prio_done _ (calls_it Call.waits) refl refl) 1 (at_most false 0) refl refl) _
        (calls_it (Call.terminates true)) refl refl)
      2 none_active refl refl

batches_finish_example :
    InBatches ([] ∷ [] ∷ (second_task ∷ first_task ∷ []) ∷ []) (second_task ∷ first_task ∷ [])
unfolding quickstart_over quickstart scope shutdown
batches_finish_example =
    batches_finish fifo_lawful (λ t c. refl) tt (inr (inl tt)) quickstart_over.run

scope_finishes_example :
    Done fifo_lawful quickstart_over.pool
    × Perm (first_task ∷ second_task ∷ []) (second_task ∷ first_task ∷ [])
unfolding quickstart_over quickstart scope shutdown
scope_finishes_example =
    scope_finishes fifo_lawful 2
      (schedule_task first_task ∷ schedule_task second_task ∷ call Call.waits ∷ []) (λ t c. refl) tt
      quickstart_over.run

backlog_order_example :
    reverse lifo_over.log.started
    ≡ take_all lifo_scheduler 3 (push_all lifo_scheduler (task_1 ∷ task_2 ∷ task_3 ∷ []) [])
unfolding lifo_over controlling_scheduling scope shutdown Lifo.clear
backlog_order_example =
    backlog_order lifo_lawful (task_1 ∷ task_2 ∷ task_3 ∷ []) (resize_to 5 ∷ call Call.waits ∷ [])
      (λ t c. refl) tt tt lifo_over.run

prioritized_tasks_order_example :
    map (λ t. t.function) (reverse prio_over.log.started)
    ≡ some task_2 ∷ some task_3 ∷ some task_1 ∷ []
unfolding prio_over
prioritized_tasks_order_example = prioritized_tasks_order prio_over.run

wait_progress_example :
    (quickstart_worked.pool.worker_count ≡ 0)
    ⊎ ((e : Event QuickstartTask) × (q : Pool QuickstartTask (List QuickstartTask)) × (st : Step
          fifo_scheduler every quickstart_worked.pool e q)
        × (acts st ≡ 1))
unfolding quickstart_worked
wait_progress_example =
    wait_progress fifo_lawful {goal = at_most false 0} 0
      (Run-Reach fifo_lawful quickstart_worked.run) refl refl tt
