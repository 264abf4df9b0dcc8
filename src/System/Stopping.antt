-- ===== src/System/Stopping.antt =====
-- The end of a pool that terminates its workers.
pub mod Moves
pub mod Flag
use boost_threadpool.Common.{
  ℕ, zero, suc, ◌+◌, ◌*◌, ◌≤◌, ◌<◌, ◌≡◌, refl, sym, ◌∙◌, ◌⊎◌, inl, inr, Bool, true, false, some,
  List, [], ◌∷◌, arith, get_elem?, total, total_mono, le-total,
}
use boost_threadpool.Scheduling.Interface.{Scheduler, Lawful}
use boost_threadpool.Core.State.{
  Phase, fetching, waiting, woken, running, leaving, dying, exited, joined, Pool, set_worker,
}
use boost_threadpool.Core.Guard.{after_task}
use boost_threadpool.System.Phases.{live}
use boost_threadpool.System.Steps.{
  asleep, Event, Step, fetches, resumes, ends_task, destructs, dies, Log, log_event, Reach, start,
  later,
}
use boost_threadpool.System.Counts.{Counts, Step-Counts, Reach-Counts}
use boost_threadpool.System.Progress.{execute_task-Defined}
use boost_threadpool.System.Stopping.Moves.{work, Falls, Step-falls}
use boost_threadpool.System.Stopping.Flag.{Step-flag, Reach-awake}

module _ {Task : Type 0} where
  -- How many steps a worker makes at most until it is over.
  abbrev pub rounds : Phase Task → ℕ
  rounds waiting = 5
  rounds woken = 4
  rounds (running t) = 3
  rounds fetching = 2
  rounds leaving = 1
  rounds dying = 1
  rounds exited = 0
  rounds joined = 0

  rounds-Falls : Falls rounds 1
  unfolding after_task
  rounds-Falls = record {
    notified = λ a. ground arith;
    joins = λ a. ground arith;
    fetching_leaving = omega arith;
    woken_leaving = omega arith;
    woken_running = λ t. omega arith;
    waiting_woken = omega arith;
    running_next = λ callable thrown t. ground arith;
    leaving_exited = omega arith;
    dying_exited = omega arith;
  }

  rounds_of_live : (ws : List (Phase Task)) → total rounds ws ≤ 4 * total live ws + total asleep ws
  rounds_of_live [] = omega arith
  rounds_of_live (a ∷ ws) = ground (arith, rounds_of_live ws)

  -- A worker whose `run` is not over.
  pub some-live :
      (ws : List (Phase Task))
      → 0 < total live ws
      → (w : ℕ) × (a : Phase Task) × (get_elem? ws w ≡ some a) × (live a ≡ 1)
  some-live [] h = absurd (omega arith)
  some-live (fetching ∷ ws) h = (0, fetching, refl, refl)
  some-live (waiting ∷ ws) h = (0, waiting, refl, refl)
  some-live (woken ∷ ws) h = (0, woken, refl, refl)
  some-live (running t ∷ ws) h = (0, running t, refl, refl)
  some-live (leaving ∷ ws) h = (0, leaving, refl, refl)
  some-live (dying ∷ ws) h = (0, dying, refl, refl)
  some-live (exited ∷ ws) h = let (w, a, e, l) = some-live ws (omega arith) in (suc w, a, e, l)
  some-live (joined ∷ ws) h = let (w, a, e, l) = some-live ws (omega arith) in (suc w, a, e, l)

-- The states that follow a state, with the number of steps that workers have made.
pub data Runs {Task Container : Type 0} (S : Scheduler Task Container) (callable : Task → Bool)
    (p : Pool Task Container) : ℕ → Pool Task Container → Type 0 where
  here : Runs S callable p 0 p
  next :
      {n : ℕ} {q r : Pool Task Container} {e : Event Task}
      → Runs S callable p n q
      → (st : Step S callable q e r) → Runs S callable p (n + work st) r

record Ending {Task Container : Type 0} (n : ℕ) (p q : Pool Task Container) : Type 0 where
  counts : Counts q
  flag : q.terminating ≡ true
  fewer : total rounds q.workers + n ≤ total rounds p.workers

module _ {Task Container : Type 0} {S : Scheduler Task Container} (L : Lawful S)
    {callable : Task → Bool} where
  Runs-Ending :
      {p : Pool Task Container} {n : ℕ} {q : Pool Task Container}
      → Counts p
      → p.terminating ≡ true
      → Runs S callable p n q
      → Ending n p q
  Runs-Ending v t here = record { counts = v; flag = t; fewer = omega arith }
  Runs-Ending v t (next {q} {r} rs st) =
      let k = Runs-Ending v t rs in
      record {
        counts = Step-Counts S st k.counts;
        flag = Step-flag S st k.flag;
        fewer = omega (arith, Step-falls rounds rounds-Falls S k.counts k.flag st, k.fewer);
      }

  -- From a reached state in which the pool terminates its workers, the workers together make at most
  -- four times m_worker_count steps, whatever the clients do, the tasks throw and the condition
  -- variables wake.
  pub terminating_bounded :
      {p q : Pool Task Container} {l : Log Task} {n : ℕ}
      → Reach L callable p l
      → p.terminating ≡ true
      → Runs S callable p n q
      → n + total rounds q.workers ≤ 4 * p.worker_count
  terminating_bounded {p} r t rs =
      let v = Reach-Counts L r in
      omega
        (arith, (Runs-Ending v t rs).fewer, rounds_of_live p.workers, Reach-awake L r t, v.counted)

  worker_moves :
      (p : Pool Task Container) (w : ℕ) (a : Phase Task)
      → total asleep p.workers ≡ 0
      → get_elem? p.workers w ≡ some a
      → live a ≡ 1
      → (e : Event Task) × (q : Pool Task Container) × (st : Step S callable p e q) × (work st ≡ 1)
  worker_moves p w fetching s h l =
      let (q, o, e) = (execute_task-Defined L w p).0 in (_, q, fetches w h e, refl)
  worker_moves p w waiting s h l = absurd (omega (arith, le-total asleep p.workers w waiting h))
  worker_moves p w woken s h l =
      let (q, o, e) = (execute_task-Defined L w p).1 in (_, q, resumes w h e, refl)
  worker_moves p w (running t) s h l = (_, _, ends_task w t false h, refl)
  worker_moves p w leaving s h l = (_, _, destructs w h, refl)
  worker_moves p w dying s h l = (_, _, dies 0 w h, refl)
  worker_moves p w exited s h l = absurd (omega arith)
  worker_moves p w joined s h l = absurd (omega arith)

  -- In a reached state in which the pool terminates its workers, no worker sleeps, and as long as
  -- m_worker_count is not zero a worker can make a step: none is forgotten.
  pub terminating_progress :
      {p : Pool Task Container} {l : Log Task}
      → Reach L callable p l
      → p.terminating ≡ true
      → (total asleep p.workers ≡ 0)
        × ((p.worker_count ≡ 0)
            ⊎ ((e : Event Task) × (q : Pool Task Container) × (st : Step S callable p e q) × (work
                    st
                  ≡ 1)))
  terminating_progress {p} r t = let s = Reach-awake L r t in (s, moves p.worker_count refl s)
    where
      moves :
          (c : ℕ)
          → p.worker_count ≡ c
          → total asleep p.workers ≡ 0
          → (p.worker_count ≡ 0)
            ⊎ ((e : Event Task) × (q : Pool Task Container) × (st : Step S callable p e q) × (work
                    st
                  ≡ 1))
      moves zero e s = inl e
      moves (suc c) e s =
          let (w, a, h, la) = some-live p.workers (omega (arith, (Reach-Counts L r).counted)) in
          inr (worker_moves p w a s h la)
