-- ===== src/Programs/Client.antt =====
-- The calls of one client, in their order, interleaved with the steps of the pool.
use boost_threadpool.Common.{
  ℕ, ◌<◌, ◌≡◌, Bool, true, false, Option, none, some, List, [], ◌∷◌, ◌++◌, map, length, get_elem?,
  size_mod,
}
use boost_threadpool.Scheduling.Interface.{Scheduler, Lawful}
use boost_threadpool.Core.State.{Goal, at_most, none_active, returned, Pool, pool_core}
use boost_threadpool.Core.Tasks.{schedule}
use boost_threadpool.Core.Resize.{resize}
use boost_threadpool.Core.Shutdown.{ShutdownPolicy, Call, shutdown, perform}
use boost_threadpool.System.Steps.{
  Event, quiet, accepted, emptied, Picks, Step, schedules, refuses, clears, resizes, waits,
  terminates, Log, log_event, Reach, start, later,
}
use boost_threadpool.System.Follow.{Internal}

pub data Instruction (Task : Type 0) : Type 0 where
  schedule_task : (task : Task) → Instruction Task
  resize_to : (worker_count : ℕ) → Instruction Task
  call : Call → Instruction Task

-- The statements of a block that declares a pool with `initial_threads`, and, where the pool goes out of
-- scope, its shutdown.
unfoldable pub scope :
    {Task : Type 0}
    → ShutdownPolicy
    → (initial_threads : ℕ) → List (Instruction Task)
    → List (Instruction Task)
unfolding shutdown
scope policy initial_threads body = resize_to initial_threads ∷ (body ++ map call (shutdown policy))

-- Where the client stands: between two calls, or inside a call that waits, as the client of that number.
abbrev pub Place : Type 0
Place = Option (ℕ × Goal)

abbrev pub event_of : {Task : Type 0} → Call → Event Task
event_of Call.waits = quiet
event_of Call.clears = emptied
event_of (Call.terminates b) = quiet

abbrev pub place_of : {Task Container : Type 0} → Call → Pool Task Container → Place
place_of Call.waits p = some (length p.clients, at_most false 0)
place_of Call.clears p = none
place_of (Call.terminates true) p = some (length p.clients, none_active)
place_of (Call.terminates false) p = none

-- A call is made: what it does to the pool at once, and where it leaves the client.
pub data Issue {Task Container : Type 0} (S : Scheduler Task Container) (p : Pool Task Container)
    : Instruction Task → Event Task → Pool Task Container → Place → Type 0 where
  schedules_it :
      (chosen : ℕ) (t : Task)
      → Picks chosen p.workers
      → (schedule S chosen t p).1 ≡ true
      → Issue S p (schedule_task t) (accepted t) (schedule S chosen t p).0 none
  in_vain :
      (chosen : ℕ) (t : Task)
      → (schedule S chosen t p).1 ≡ false
      → Issue S p (schedule_task t) quiet (schedule S chosen t p).0 none
  resizes_it :
      (threads n : ℕ) → n < size_mod → Issue S p (resize_to n) quiet (resize threads n p).0 none
  calls_it : (c : Call) → Issue S p (call c) (event_of c) (perform S c p) (place_of c p)

pub data Run {Task Container : Type 0} {S : Scheduler Task Container} (L : Lawful S)
    (callable : Task → Bool) (program : List (Instruction Task))
    : Pool Task Container → Log Task → (rest : List (Instruction Task)) → Place → Type 0 where
  enter :
      Run L callable program
        (pool_core S)
        (record { scheduled = []; started = []; dropped = []; finished = [] })
        program
        none
  issue :
      {p q : Pool Task Container} {l : Log Task} {rest : List (Instruction Task)}
      {i : Instruction Task} {e : Event Task} {at : Place}
      → Run L callable program p l (i ∷ rest) none
      → Issue S p i e q at
      → Run L callable program q (log_event L p e l) rest at
  come_back :
      {p : Pool Task Container} {l : Log Task} {rest : List (Instruction Task)} {c : ℕ} {g : Goal}
      → Run L callable program p l rest (some (c, g))
      → get_elem? p.clients c ≡ some returned
      → Run L callable program p l rest none
  goes_on :
      {p q : Pool Task Container} {l : Log Task} {rest : List (Instruction Task)} {e : Event Task}
      {at : Place}
      → Run L callable program p l rest at
      → (st : Step S callable p e q) → Internal st
      → Run L callable program q (log_event L p e l) rest at

module _ {Task Container : Type 0} {S : Scheduler Task Container} where
  pub Issue-Step :
      {callable : Task → Bool} {p q : Pool Task Container} {i : Instruction Task} {e : Event Task}
      {at : Place}
      → Issue S p i e q at
      → Step S callable p e q
  unfolding perform
  Issue-Step (schedules_it chosen t pick h) = schedules chosen t pick h
  Issue-Step (in_vain chosen t h) = refuses chosen t h
  Issue-Step (resizes_it threads n h) = resizes threads n h
  Issue-Step (calls_it Call.waits) = waits 0
  Issue-Step (calls_it Call.clears) = clears
  Issue-Step (calls_it (Call.terminates b)) = terminates b

module _ {Task Container : Type 0} {S : Scheduler Task Container} (L : Lawful S) where
  -- Whatever a program meets, the pool could reach.
  pub Run-Reach :
      {callable : Task → Bool} {program : List (Instruction Task)} {p : Pool Task Container}
      {l : Log Task} {rest : List (Instruction Task)} {at : Place}
      → Run L callable program p l rest at
      → Reach L callable p l
  Run-Reach enter = start
  Run-Reach (issue r i) = later (Run-Reach r) (Issue-Step i)
  Run-Reach (come_back r h) = Run-Reach r
  Run-Reach (goes_on r st n) = later (Run-Reach r) st
