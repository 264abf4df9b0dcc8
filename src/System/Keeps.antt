-- ===== src/System/Keeps.antt =====
-- The operations of a pool that move no task.
use boost_threadpool.Common.{
  ℕ, ◌≡◌, refl, ◌∙◌, Bool, true, some, [], ◌∷◌, ◌++◌, arith, get_elem?, if_cases,
}
use boost_threadpool.Scheduling.Interface.{Scheduler}
use boost_threadpool.Core.State.{
  Phase, Goal, at_most, none_active, returned, Pool, set_worker, set_client,
}
use boost_threadpool.Core.Notify.{notify_all_workers}
use boost_threadpool.Core.Waiting.{finish, must_wait, begin_wait, resume_wait}
use boost_threadpool.Core.Resize.{
  attach, retarget, resize, count_out, worker_died_unexpectedly, worker_destructed,
  size_policy_worker_died,
}
use boost_threadpool.Core.Resize.Cases.{grow_inv, resize_cases}
use boost_threadpool.Core.Shutdown.{terminate_all_workers}
use boost_threadpool.System.Running.{
  task_of, running_tasks, running_tasks-wake, running_tasks-join_all, running_tasks-attach,
  running_tasks-set_idle,
}

module _ {Task Container : Type 0} where
  pub record Keeps (p q : Pool Task Container) : Type 0 where
    pub same_scheduler : q.scheduler ≡ p.scheduler
    pub same_running : running_tasks q.workers ≡ running_tasks p.workers

  Keeps-trans : {p q r : Pool Task Container} → Keeps p q → Keeps q r → Keeps p r
  Keeps-trans h k = record {
    same_scheduler = k.same_scheduler ∙ h.same_scheduler;
    same_running = k.same_running ∙ h.same_running;
  }

  attach-Keeps : (p : Pool Task Container) → Keeps p (attach p)
  unfolding attach
  attach-Keeps p = record { same_scheduler = refl; same_running = running_tasks-attach p.workers }

  notify_all_workers-Keeps : (p : Pool Task Container) → Keeps p (notify_all_workers p)
  unfolding notify_all_workers
  notify_all_workers-Keeps p = record {
    same_scheduler = refl;
    same_running = running_tasks-wake p.workers;
  }

  pub resize-Keeps : (threads n : ℕ) (p : Pool Task Container) → Keeps p (resize threads n p).0
  resize-Keeps threads n p =
      resize_cases (λ r. Keeps p r.0) threads n p
        (λ _. record { same_scheduler = refl; same_running = refl })
        (λ _ _.
          grow_inv (Keeps p) (λ q _ k. Keeps-trans k (attach-Keeps q)) threads (retarget n p)
            (record { same_scheduler = refl; same_running = refl }))
        (λ _ _.
          Keeps-trans {q = retarget n p} (record { same_scheduler = refl; same_running = refl })
            (notify_all_workers-Keeps (retarget n p)))

  finish-Keeps : (goal : Goal) (p : Pool Task Container) → Keeps p (finish goal p)
  unfolding finish
  finish-Keeps (at_most timed k) p = record { same_scheduler = refl; same_running = refl }
  finish-Keeps none_active p = record {
    same_scheduler = refl;
    same_running = running_tasks-join_all p.terminated_workers p.workers;
  }

  pub set_worker-Keeps :
      (w : ℕ) (a b : Phase Task) (p : Pool Task Container)
      → get_elem? p.workers w ≡ some a
      → task_of a ≡ []
      → task_of b ≡ []
      → Keeps p (set_worker w b p)
  set_worker-Keeps w a b p h e f = record {
    same_scheduler = refl;
    same_running = running_tasks-set_idle p.workers w a b h e f;
  }

  count_out-Keeps : (p : Pool Task Container) → Keeps p (count_out p)
  unfolding count_out
  count_out-Keeps p = record { same_scheduler = refl; same_running = refl }

  pub worker_destructed-Keeps : (w : ℕ) (p : Pool Task Container) → Keeps p (worker_destructed w p)
  unfolding worker_destructed count_out
  worker_destructed-Keeps w p = ground arith

  pub worker_died-Keeps :
      (threads w : ℕ) (p : Pool Task Container) → Keeps p (worker_died_unexpectedly threads w p)
  unfolding worker_died_unexpectedly size_policy_worker_died
  worker_died-Keeps threads w p =
      if_cases (Keeps p) (count_out p).terminating _ _
        (λ _. record {
          same_scheduler = (count_out-Keeps p).same_scheduler;
          same_running = (count_out-Keeps p).same_running;
        })
        (λ _. Keeps-trans (count_out-Keeps p) (resize-Keeps threads _ (count_out p)))

module _ {Task Container : Type 0} (S : Scheduler Task Container) where
  pub begin_wait-Keeps : (goal : Goal) (p : Pool Task Container) → Keeps p (begin_wait S goal p)
  unfolding begin_wait
  begin_wait-Keeps goal p =
      if_cases (Keeps p) (must_wait S goal p) _ _
        (λ _. record { same_scheduler = refl; same_running = refl })
        (λ _.
          let k = finish-Keeps goal (record p { clients = p.clients ++ returned ∷ [] }) in
          record { same_scheduler = k.same_scheduler; same_running = k.same_running })

  pub resume_wait-Keeps :
      (i : ℕ) (goal : Goal) (p : Pool Task Container) → Keeps p (resume_wait S i goal p)
  unfolding resume_wait
  resume_wait-Keeps i goal p =
      if_cases (Keeps p) (must_wait S goal p) _ _
        (λ _. record { same_scheduler = refl; same_running = refl })
        (λ _.
          let k = finish-Keeps goal (set_client i returned p) in
          record { same_scheduler = k.same_scheduler; same_running = k.same_running })

  pub terminate-Keeps :
      (stays : Bool) (p : Pool Task Container) → Keeps p (terminate_all_workers S stays p)
  unfolding terminate_all_workers
  terminate-Keeps stays p =
      if_cases (Keeps p) stays _ _ (λ _. Keeps-trans notified (begin_wait-Keeps none_active _))
        (λ _. notified)
    where
      stop : Pool Task Container
      stop = record p { terminating = true; target_worker_count = 0 }

      notified : Keeps p (notify_all_workers stop)
      notified =
          let k = notify_all_workers-Keeps stop in
          record { same_scheduler = k.same_scheduler; same_running = k.same_running }
