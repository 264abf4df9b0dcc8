-- ===== src/System/Shrink.antt =====
-- A pool that is to keep some workers can lose all of them: execute_task compares m_worker_count
-- with the target in one critical section, and worker_destructed decreases it in another.
use mathlib.Core.Path.{subst₂}
use boost_threadpool.Common.{
  ℕ, zero, suc, ◌+◌, ◌-◌, ◌<◌, ◌≡◌, refl, ap, subst, sym, ◌∙◌, Bool, false, some, List, [], ◌++◌,
  arith, map, size_mod, dec, replicate, replicate-shift, get_elem?-replicate, set-replicate,
  append-nil, lt→ltb, total,
}
use boost_threadpool.Scheduling.Interface.{Scheduler, Lawful}
use boost_threadpool.Core.State.{Phase, fetching, leaving, exited, Pool, pool_core, set_worker}
use boost_threadpool.Core.Notify.{wake, notify_all_workers}
use boost_threadpool.Core.Guard.{run_end}
use boost_threadpool.Core.Resize.{retarget, resize, count_out, worker_destructed}
use boost_threadpool.Core.Resize.Laws.{grown, resize_branches}
use boost_threadpool.Core.Execute.{left, leave, execute_task}
use boost_threadpool.System.Phases.{live}
use boost_threadpool.System.Steps.{
  Event, Step, schedules, refuses, clears, resizes, waits, waits_timed, terminates, fetches,
  resumes, wakes, ends_task, destructs, dies, client_resumes, client_wakes, client_times_out, Log,
  Reach, start, later,
}

abbrev exited_worker : (Task : Type 0) → Phase Task
exited_worker Task = exited

abbrev wake_free : (Task : Type 0) → Phase Task
wake_free Task = fetching

wake-replicate :
    (Task : Type 0) (m : ℕ) → map wake (replicate m (wake_free Task)) ≡ replicate m (wake_free Task)
wake-replicate Task zero = refl
wake-replicate Task (suc m) = rw (wake-replicate Task m)

-- A worker fetches a task, or says that it ends.
abbrev pub IsRegular :
    {Task Container : Type 0} {S : Scheduler Task Container} {callable : Task → Bool}
    {p q : Pool Task Container} {e : Event Task}
    → Step S callable p e q
    → Type 0
IsRegular (schedules chosen t pick h) = ⊥
IsRegular (refuses chosen t h) = ⊥
IsRegular clears = ⊥
IsRegular (resizes threads n h) = ⊥
IsRegular (waits k) = ⊥
IsRegular (waits_timed k) = ⊥
IsRegular (terminates b) = ⊥
IsRegular (fetches w h e) = Unit
IsRegular (resumes w h e) = ⊥
IsRegular (wakes w h) = ⊥
IsRegular (ends_task w t thrown h) = ⊥
IsRegular (destructs w h) = Unit
IsRegular (dies threads w h) = ⊥
IsRegular (client_resumes j g h) = ⊥
IsRegular (client_wakes j g h) = ⊥
IsRegular (client_times_out j k h) = ⊥

-- What follows when the clients call nothing, and no exception and no wake-up comes.
pub data Alone {Task Container : Type 0} (S : Scheduler Task Container) (callable : Task → Bool)
    (p : Pool Task Container) : Pool Task Container → Type 0 where
  stays : Alone S callable p p
  works :
      {q r : Pool Task Container} {e : Event Task}
      → Alone S callable p q
      → (st : Step S callable q e r) → IsRegular st
      → Alone S callable p r

module _ {Task Container : Type 0} {S : Scheduler Task Container} (L : Lawful S)
    (callable : Task → Bool) (n k : ℕ) (shrinks : k < n) (bounded : n < size_mod) where
  abbrev nothing_logged : Log Task
  nothing_logged = record { scheduled = []; started = []; dropped = []; finished = [] }

  -- A pool that was never used, with `count` workers and the target `k`.
  abbrev staffed : (target count : ℕ) → List (Phase Task) → Pool Task Container
  staffed target count ws = record {
    worker_count = count;
    target_worker_count = target;
    active_worker_count = count;
    scheduler = S.clear S.created;
    terminating = false;
    terminated_workers = [];
    workers = ws;
    clients = [];
  }

  all_new :
      (m : ℕ) → m ≡ n → grown m (retarget n (pool_core S)) ≡ staffed n n (replicate n fetching)
  unfolding pool_core
  all_new m e = rw e (ground arith)

  abbrev shrunk : Pool Task Container
  shrunk = staffed k n (replicate n fetching)

  abbrev Comes : Pool Task Container → Type 0
  Comes p = Alone S callable shrunk p

  created : Reach L callable (staffed n n (replicate n fetching)) nothing_logged
  unfolding pool_core
  created = subst (λ p. Reach L callable p nothing_logged) grows (later start (resizes n n bounded))
    where
      grows : (resize n n (pool_core S)).0 ≡ staffed n n (replicate n fetching)
      grows =
          ap (λ r. r.0)
            ((resize_branches n n (pool_core S) (omega arith) bounded).1 refl (omega arith)
              (omega arith))
          ∙ all_new (n - 0) (omega arith)

  shrinks_to : (resize 0 k (staffed n n (replicate n fetching))).0 ≡ shrunk
  unfolding notify_all_workers
  shrinks_to =
      ap (λ r. r.0)
        ((resize_branches 0 k (staffed n n (replicate n fetching)) (omega arith) (omega arith)).3
          refl shrinks)
      ∙ ap (staffed k n) (wake-replicate Task n)

  leaves_early :
      (i : ℕ) (ws : List (Phase Task))
      → execute_task S i (staffed k n ws) ≡ some (set_worker i leaving (staffed k n ws), left)
  unfolding execute_task leave
  leaves_early i ws = rw (lt→ltb k n shrinks)

  -- `i` workers have found that there are too many, and `j` have still to look.
  checks :
      (j i : ℕ)
      → i + j ≡ n
      → Comes (staffed k n (replicate i leaving ++ replicate j fetching))
      → Comes (staffed k n (replicate n leaving))
  checks zero i e r =
      let e' : i ≡ n = omega arith in
      subst (λ m. Comes (staffed k n (replicate m leaving))) e'
        (subst (λ ws. Comes (staffed k n ws)) (append-nil (replicate i leaving)) r)
  checks (suc j) i e r = checks j (suc i) (omega arith) (
      subst (λ ws. Comes (staffed k n ws))
        (set-replicate i leaving fetching leaving (replicate j fetching)
          ∙ replicate-shift i leaving (replicate j fetching))
        (works r
          (fetches i (get_elem?-replicate i leaving fetching (replicate j fetching))
            (leaves_early i _))
          tt))

  -- `i` workers are gone, and `j` have still to say so.
  farewells :
      (j i : ℕ)
      → i + j ≡ n
      → Comes (staffed k j (replicate i exited ++ replicate j leaving))
      → Comes (staffed k 0 (replicate n exited))
  unfolding worker_destructed count_out run_end
  farewells zero i e r =
      let e' : i ≡ n = omega arith in
      subst (λ m. Comes (staffed k 0 (replicate m exited))) e'
        (subst (λ ws. Comes (staffed k 0 ws)) (append-nil (replicate i exited)) r)
  farewells (suc j) i e r =
      let d : dec (suc j) ≡ j = omega arith in
      farewells j (suc i) (omega arith) (
        subst₂ (λ c ws. Comes (staffed k c ws)) d
          (set-replicate i exited leaving exited (replicate j leaving)
            ∙ replicate-shift i exited (replicate j leaving))
          (works r (destructs i (get_elem?-replicate i exited leaving (replicate j leaving))) tt))

  live-replicate :
      (m : ℕ)
      → (total live (replicate m (exited_worker Task)) ≡ 0)
        × (total live (replicate m (wake_free Task)) ≡ m)
  live-replicate zero = (refl, refl)
  live-replicate (suc m) = let (a, b) = live-replicate m in (omega (arith, a), omega (arith, b))

  -- For all `k` < `n`, a pool can reach a state with `n` live workers and the target `n`, in which one call
  -- of `resize` to `k`, a positive number as well, is enough for it to lose all of them: when then nobody
  -- calls anything, no exception comes and no thread is woken, the workers that fetch tasks and end can
  -- bring the pool to a state in which none is left, while the target is still `k`.
  pub shrink_to_none :
      (p r : Pool Task Container) × (l : Log Task) × Reach L callable p l
      × (p.target_worker_count ≡ n)
      × (p.worker_count ≡ n)
      × (total live p.workers ≡ n)
      × Alone S callable (resize 0 k p).0 r
      × (r.target_worker_count ≡ k)
      × (r.worker_count ≡ 0)
      × (total live r.workers ≡ 0)
      × (r.terminating ≡ false)
  shrink_to_none = (
    staffed n n (replicate n fetching),
    staffed k 0 (replicate n exited),
    nothing_logged,
    created,
    refl,
    refl,
    (live-replicate n).1,
    subst (λ q. Alone S callable q (staffed k 0 (replicate n exited))) (sym shrinks_to)
        (farewells n 0 (omega arith) (checks n 0 (omega arith) stays)),
    refl,
    refl,
    (live-replicate n).0,
    refl,
  )
