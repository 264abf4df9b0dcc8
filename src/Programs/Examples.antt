-- ===== src/Programs/Examples.antt =====
-- libs/threadpool/tutorial/tutorial.cpp and libs/threadpool/quickstart/quickstart.cpp: their blocks, each as
-- the calls that it makes of its pool. Text that is printed is left out.
use mathlib.Core.List.{reverse}
use boost_threadpool.Common.{ℕ, ◌≡◌, refl, ap, ◌∙◌, Bool, none, some, List, [], ◌∷◌, map}
use boost_threadpool.Scheduling.Containers.{select}
use boost_threadpool.Scheduling.Runs.{push_all, take_all}
use boost_threadpool.Common.{Perm}
use boost_threadpool.Scheduling.Fifo.{fifo_lawful}
use boost_threadpool.Scheduling.Fifo
use boost_threadpool.Programs.Completion.{scope_finishes}
use boost_threadpool.Scheduling.Lifo.{lifo_scheduler, lifo_lawful}
use boost_threadpool.Scheduling.Lifo
use boost_threadpool.Scheduling.Prio.{prio_scheduler, prio_lawful}
use boost_threadpool.Scheduling.Prio
use boost_threadpool.Adaptors.Prio.{PrioTask, prio_task_func, less}
use boost_threadpool.Core.State.{Pool}
use boost_threadpool.Core.Shutdown.{Call}
use boost_threadpool.ThreadPool.Kinds.{lifo_pool, prio_pool, pool}
use boost_threadpool.System.Steps.{Log}
use boost_threadpool.Programs.Client.{Instruction, schedule_task, resize_to, call, scope, Run}
use boost_threadpool.Programs.Backlog.{backlog_order}

pub data TutorialTask : Type 0 where
  task_1 task_2 task_3 : TutorialTask
  task_with_parameter : (value : ℕ) → TutorialTask

-- Section "Quick Start", over a fifo pool.
unfoldable pub quick_start : List (Instruction TutorialTask)
unfolding scope
quick_start = scope (pool TutorialTask).shutdown_policy 2 (
    schedule_task task_1
    ∷ schedule_task task_2
    ∷ schedule_task task_3
    ∷ schedule_task (task_with_parameter 4)
    ∷ [])

-- Section "Controlling scheduling", over a lifo pool.
unfoldable pub controlling_scheduling : List (Instruction TutorialTask)
unfolding scope
controlling_scheduling = scope (lifo_pool TutorialTask).shutdown_policy 0 (
    schedule_task task_1
    ∷ schedule_task task_2
    ∷ schedule_task task_3
    ∷ resize_to 5
    ∷ call Call.waits
    ∷ [])

-- Section "Prioritized Tasks", over a pool of prioritised tasks.
unfoldable pub prioritized_tasks : List (Instruction (PrioTask TutorialTask))
unfolding scope prio_task_func
prioritized_tasks = scope (prio_pool TutorialTask).shutdown_policy 0 (
    schedule_task (prio_task_func 1 (some task_1))
    ∷ schedule_task (prio_task_func 10 (some task_2))
    ∷ schedule_task (prio_task_func 5 (some task_3))
    ∷ resize_to 10
    ∷ call Call.waits
    ∷ [])

pub data QuickstartTask : Type 0 where
  first_task second_task : QuickstartTask

-- `main` of the quick start, over a fifo pool.
unfoldable pub quickstart : List (Instruction QuickstartTask)
unfolding scope
quickstart =
    scope (pool QuickstartTask).shutdown_policy 2
      (schedule_task first_task ∷ schedule_task second_task ∷ call Call.waits ∷ [])

-- When the tutorial's first block has ended, its four tasks are finished, though two of them throw.
pub quick_start-finished :
    {callable : TutorialTask → Bool} {p : Pool TutorialTask (List TutorialTask)}
    {l : Log TutorialTask}
    → Run fifo_lawful callable quick_start p l [] none
    → Perm (task_1 ∷ task_2 ∷ task_3 ∷ task_with_parameter 4 ∷ []) l.finished
unfolding quick_start Fifo.push
quick_start-finished r =
    (scope_finishes fifo_lawful 2
      (schedule_task task_1
        ∷ schedule_task task_2
        ∷ schedule_task task_3
        ∷ schedule_task (task_with_parameter 4)
        ∷ [])
      (λ t c. refl) tt r).1

-- However the threads and the client of the block interleave, when the tutorial's block over a lifo pool has
-- ended, its pool has taken the last task first and the first task last.
pub controlling_scheduling_order :
    {callable : TutorialTask → Bool} {p : Pool TutorialTask (List TutorialTask)}
    {l : Log TutorialTask}
    → Run lifo_lawful callable controlling_scheduling p l [] none
    → reverse l.started ≡ task_3 ∷ task_2 ∷ task_1 ∷ []
unfolding controlling_scheduling push_all take_all Lifo.push Lifo.top Lifo.pop Lifo.clear
controlling_scheduling_order r =
    backlog_order lifo_lawful (task_1 ∷ task_2 ∷ task_3 ∷ []) (resize_to 5 ∷ call Call.waits ∷ [])
      (λ t c. refl) tt tt r

-- However the threads and the client of the block interleave, when the tutorial's block over a priority pool
-- has ended, its pool has taken task_2, of priority 10, before task_3, of priority 5, and that before
-- task_1, of priority 1.
pub prioritized_tasks_order :
    {callable : PrioTask TutorialTask → Bool}
    {p : Pool (PrioTask TutorialTask) (List (PrioTask TutorialTask))}
    {l : Log (PrioTask TutorialTask)}
    → Run (prio_lawful less) callable prioritized_tasks p l [] none
    → map (λ t. t.function) (reverse l.started) ≡ some task_2 ∷ some task_3 ∷ some task_1 ∷ []
unfolding prioritized_tasks push_all take_all Prio.push Prio.top Prio.pop Prio.clear select less
prioritized_tasks_order r =
    ap (map (λ t. t.function)) (
      backlog_order (prio_lawful less)
        (record { priority = 1; function = some task_1 }
          ∷ record { priority = 10; function = some task_2 }
          ∷ record { priority = 5; function = some task_3 }
          ∷ [])
        (resize_to 10 ∷ call Call.waits ∷ []) (λ t c. refl) tt tt r)
    ∙ refl
