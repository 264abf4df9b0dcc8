-- ===== src/System/Progress.antt =====
-- execute_task asks the scheduler for a task only when there is one.
use boost_threadpool.Common.{
  ℕ, ◌⊎◌, ◌≡◌, refl, true, false, Option, some, ltb, inc, Bool-cases, if_cases, inl, inr,
}
use boost_threadpool.Scheduling.Interface.{Scheduler, Lawful}
use boost_threadpool.Core.State.{running, Pool, set_worker}
use boost_threadpool.Core.Execute.{
  Fetched, took, leave, sleep, take_task, await_task, execute_task, resume_task,
}

module _ {Task Container : Type 0} {S : Scheduler Task Container} (L : Lawful S) where
  take_task_total :
      (w : ℕ) (p : Pool Task Container)
      → S.empty p.scheduler ≡ false
      → (t : Task) × (q : Pool Task Container) × (take_task S w p ≡ some (q, took t))
        × (S.top p.scheduler ≡ some t)
  unfolding take_task
  take_task_total w p e =
      let (t, c, top, pop, _) = L.takes p.scheduler e in
      (
        t,
        set_worker w (running t) (record p { scheduler = c }),
        rw (top, take_task) (rw (pop, take_task)),
        top,
      )

  abbrev Defined : Option (Pool Task Container × Fetched Task) → Type 0
  Defined r = (q : Pool Task Container) × (o : Fetched Task) × (r ≡ some (q, o))

  await_task-Defined : (w : ℕ) (p : Pool Task Container) → Defined (await_task S w p)
  unfolding await_task leave sleep
  await_task-Defined w p = elim (Bool-cases (S.empty p.scheduler)) [
    | inl e ↦ rw e (
        if_cases Defined (ltb p.target_worker_count p.worker_count) (leave S w p) (sleep S w p)
          (λ _. (_, _, refl)) (λ _. (_, _, refl)))
    | inr e ↦ let (t, q, h, _) = take_task_total w p e in rw e (q, took t, h)
  ]

  -- With a lawful scheduler neither part of execute_task calls `top` or `pop` on an empty
  -- container, in any state of the pool: both have a result, and a worker that was notified takes the
  -- top task whenever one is pending, also when the pool is to shrink.
  pub execute_task-Defined :
      (w : ℕ) (p : Pool Task Container)
      → Defined (execute_task S w p)
        × Defined (resume_task S w p)
        × ((S.empty p.scheduler ≡ true)
            ⊎ ((t : Task) × (q : Pool Task Container) × (resume_task S w p ≡ some (q, took t))
                × (S.top p.scheduler ≡ some t)))
  unfolding execute_task resume_task await_task leave
  execute_task-Defined w p = (
    if_cases Defined (ltb p.target_worker_count p.worker_count) (leave S w p) (await_task S w p)
        (λ _. (_, _, refl)) (λ _. await_task-Defined w p),
    await_task-Defined w (record p { active_worker_count = inc p.active_worker_count }),
    elim (Bool-cases (S.empty p.scheduler)) [
      | inl e ↦ inl e
      | inr e ↦ inr (
          rw e (take_task_total w (record p { active_worker_count = inc p.active_worker_count }) e))
    ],
  )
