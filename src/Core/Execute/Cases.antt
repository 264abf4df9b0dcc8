-- ===== src/Core/Execute/Cases.antt =====
-- Rules for proofs about execute_task: what holds of each outcome holds of the result.
use boost_threadpool.Common.{
  ℕ, ◌≤◌, ◌<◌, ◌≡◌, true, false, Option, none, some, arith, ltb, dec, if_cases, Option-cases, inl,
  inr,
}
use boost_threadpool.Scheduling.Interface.{Scheduler}
use boost_threadpool.Core.State.{leaving, waiting, running, Pool, set_worker}
use boost_threadpool.Core.Notify.{notify_all_clients}
use boost_threadpool.Core.Execute.{
  Fetched, left, slept, took, leave, sleep, take_task, await_task, execute_task,
}

module _ {ℓ} {Task Container : Type 0} (P : Pool Task Container → Fetched Task → Type ℓ) where
  abbrev pub Then : Option (Pool Task Container × Fetched Task) → Type ℓ
  Then none = Unit
  Then (some (q, o)) = P q o

module _ {ℓ} {Task Container : Type 0} (P : Pool Task Container → Fetched Task → Type ℓ)
    (S : Scheduler Task Container) (w : ℕ) where
  pub Then-elim :
      (r : Option (Pool Task Container × Fetched Task)) (q : Pool Task Container) (o : Fetched Task)
      → Then P r
      → r ≡ some (q, o)
      → P q o
  Then-elim r q o h e = rw e at h

  take_task-Then :
      (p : Pool Task Container)
      → ((t : Task) (c : Container)
          → S.top p.scheduler ≡ some t
          → S.pop p.scheduler ≡ some c
          → P (set_worker w (running t) (record p { scheduler = c })) (took t))
      → Then P (take_task S w p)
  unfolding take_task
  take_task-Then p f = elim (Option-cases (S.top p.scheduler)) [
    | inl e ↦ rw (e, take_task) tt
    | inr (t, e) ↦ elim (Option-cases (S.pop p.scheduler)) [
      | inl k ↦ rw (e, take_task) (rw (k, take_task) tt)
      | inr (c, k) ↦ rw (e, take_task) (rw (k, take_task) (f t c e k))
    ]
  ]

  pub await_task-Then :
      (p : Pool Task Container)
      → (S.empty p.scheduler ≡ true
          → p.target_worker_count < p.worker_count
          → P (set_worker w leaving p) left)
      → (S.empty p.scheduler ≡ true
          → p.worker_count ≤ p.target_worker_count
          → P
              (set_worker w waiting
                (notify_all_clients (record p { active_worker_count = dec p.active_worker_count })))
              slept)
      → (S.empty p.scheduler ≡ false
          → (t : Task) (c : Container) → S.top p.scheduler ≡ some t
          → S.pop p.scheduler ≡ some c
          → P (set_worker w (running t) (record p { scheduler = c })) (took t))
      → Then P (await_task S w p)
  unfolding await_task
  await_task-Then p f g h =
      if_cases (Then P) (S.empty p.scheduler) _ _
        (λ e.
          if_cases (Then P) (ltb p.target_worker_count p.worker_count) (leave S w p) (sleep S w p)
            (λ k. f e (ground arith)) (λ k. g e (ground arith)))
        (λ e. take_task-Then p (h e))

  -- A worker that starts a round may leave at once; otherwise it looks for a task.
  pub execute_task-Then :
      (p : Pool Task Container)
      → (p.target_worker_count < p.worker_count → P (set_worker w leaving p) left)
      → Then P (await_task S w p)
      → Then P (execute_task S w p)
  unfolding execute_task
  execute_task-Then p f g =
      if_cases (Then P) (ltb p.target_worker_count p.worker_count) (leave S w p) (await_task S w p)
        (λ k. f (ground arith)) (λ _. g)
