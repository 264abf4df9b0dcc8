-- ===== src/Tests/Sessions.antt =====
-- Runs of whole programs, from the construction of the pool on.
use boost_threadpool.Common.{ℕ, ◌≡◌, subst, Bool, true, none, some, List, ◌∷◌, get_elem?}
use boost_threadpool.Scheduling.Interface.{Scheduler, Lawful}
use boost_threadpool.Core.State.{Goal, returned, Pool, pool_core}
use boost_threadpool.System.Steps.{Event, Step, Log, log_event}
use boost_threadpool.System.Follow.{Internal}
use boost_threadpool.Programs.Client.{
  Instruction, Place, Issue, Run, enter, issue, come_back, goes_on,
}

abbrev pub every : {Task : Type 0} → Task → Bool
every t = true

pub record Session {Task Container : Type 0} {S : Scheduler Task Container} (L : Lawful S)
    (program : List (Instruction Task)) : Type 0 where
  pub pool : Pool Task Container
  pub log : Log Task
  pub rest : List (Instruction Task)
  pub at : Place
  pub run : Run L every program pool log rest at

module _ {Task Container : Type 0} {S : Scheduler Task Container} {L : Lawful S}
    {program : List (Instruction Task)} where
  abbrev pub entered : Session L program
  entered = record { pool = pool_core S; log = _; rest = program; at = none; run = enter }

  abbrev pub issued :
      (s : Session L program) {i : Instruction Task} {e : Event Task} {q : Pool Task Container}
      {at : Place} (rest : List (Instruction Task))
      → Issue S s.pool i e q at
      → s.rest ≡ i ∷ rest
      → s.at ≡ none
      → Session L program
  issued s {i} {e} {q} {at} rest v h k = record {
    pool = q;
    log = log_event L s.pool e s.log;
    rest = rest;
    at = at;
    run =
        issue
          (subst (Run L every program s.pool s.log (i ∷ rest)) k
            (subst (λ r. Run L every program s.pool s.log r s.at) h s.run))
          v;
  }

  abbrev pub back :
      (s : Session L program) (c : ℕ) (g : Goal)
      → s.at ≡ some (c, g)
      → get_elem? s.pool.clients c ≡ some returned
      → Session L program
  back s c g h k = record {
    pool = s.pool;
    log = s.log;
    rest = s.rest;
    at = none;
    run = come_back (subst (Run L every program s.pool s.log s.rest) h s.run) k;
  }

  abbrev pub moved :
      (s : Session L program) {e : Event Task} {q : Pool Task Container}
      (st : Step S every s.pool e q)
      → Internal st
      → Session L program
  moved s {e} {q} st n = record {
    pool = q;
    log = log_event L s.pool e s.log;
    rest = s.rest;
    at = s.at;
    run = goes_on s.run st n;
  }
