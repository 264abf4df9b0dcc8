-- ===== src/Tests/Setup.antt =====
-- Runs of a fifo pool of numbered tasks, from its construction on.
use boost_threadpool.Common.{ℕ, Bool, true, List}
use boost_threadpool.Scheduling.Interface.{Scheduler}
use boost_threadpool.Scheduling.Fifo.{fifo_scheduler, fifo_lawful}
use boost_threadpool.Core.State.{Pool, pool_core}
use boost_threadpool.System.Steps.{Event, log_event, Step, Log, Reach, start, later}

abbrev pub fifo : Scheduler ℕ (List ℕ)
fifo = fifo_scheduler

abbrev pub any_task : ℕ → Bool
any_task t = true

pub record Run : Type 0 where
  pub last : Pool ℕ (List ℕ)
  pub log : Log ℕ
  pub reach : Reach fifo_lawful any_task last log

abbrev pub new : Run
new = record { last = pool_core fifo; log = _; reach = start }

abbrev pub extend :
    (r : Run) {q : Pool ℕ (List ℕ)} {e : Event ℕ} → Step fifo any_task r.last e q → Run
extend r {q} {e} s = record {
  last = q;
  log = log_event fifo_lawful r.last e r.log;
  reach = later r.reach s;
}
