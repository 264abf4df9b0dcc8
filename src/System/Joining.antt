-- ===== src/System/Joining.antt =====
-- terminate_all_workers joins the terminated workers while it owns the monitor.
use boost_threadpool.Common.{
  ℕ, zero, suc, ◌≡◌, ◌≢◌, ap, Bool, true, false, some, List, [], ◌∷◌, ◌++◌, map, get_elem?, set,
  if_cases, inc, All, All-map, All-append, get_elem?-set_self,
}
use boost_threadpool.Scheduling.Interface.{Scheduler, Lawful}
use boost_threadpool.Core.State.{
  Phase, fetching, waiting, woken, running, leaving, dying, exited, Goal, at_most, none_active,
  returned, Pool, pool_core, set_worker, set_client,
}
use boost_threadpool.Core.Notify.{wake, wake_at, notify_all_workers, notify_all_clients}
use boost_threadpool.Core.Guard.{run_end}
use boost_threadpool.Core.Tasks.{schedule, clear}
use boost_threadpool.Core.Waiting.{finish, must_wait, begin_wait, wait, timed_wait, resume_wait}
use boost_threadpool.Core.Resize.{
  attach, retarget, resize, count_out, worker_died_unexpectedly, worker_destructed,
  size_policy_worker_died,
}
use boost_threadpool.Core.Resize.Cases.{grow_inv, resize_cases}
use boost_threadpool.Core.Execute.{execute_task, resume_task, await_task}
use boost_threadpool.Core.Execute.Cases.{Then, Then-elim, await_task-Then, execute_task-Then}
use boost_threadpool.Core.Shutdown.{terminate_all_workers}
use boost_threadpool.System.Steps.{
  Event, Step, schedules, refuses, clears, resizes, waits, waits_timed, terminates, fetches,
  resumes, wakes, ends_task, destructs, dies, client_resumes, client_wakes, client_times_out, Log,
  Reach, start, later,
}

module _ {Task : Type 0} where
  -- The `run` of worker `v` is over, and its thread has not been joined.
  abbrev pub Over : List (Phase Task) → ℕ → Type 0
  Over ws v = get_elem? ws v ≡ some exited

  Over-append : (ws vs : List (Phase Task)) (v : ℕ) → Over ws v → Over (ws ++ vs) v
  Over-append [] vs v h = absurd (cc)
  Over-append (a ∷ ws) vs zero h = h
  Over-append (a ∷ ws) vs (suc v) h = Over-append ws vs v h

  Over-wake : (ws : List (Phase Task)) (v : ℕ) → Over ws v → Over (map wake ws) v
  Over-wake [] v h = h
  Over-wake (a ∷ ws) zero h = let e : a ≡ exited = cc in ap (λ x. some (wake x)) e
  Over-wake (a ∷ ws) (suc v) h = Over-wake ws v h

  Over-wake_at : (i : ℕ) (ws : List (Phase Task)) (v : ℕ) → Over ws v → Over (wake_at i ws) v
  unfolding wake_at
  Over-wake_at i [] v h = h
  Over-wake_at zero (a ∷ ws) zero h = let e : a ≡ exited = cc in ap (λ x. some (wake x)) e
  Over-wake_at zero (a ∷ ws) (suc v) h = h
  Over-wake_at (suc i) (a ∷ ws) zero h = h
  Over-wake_at (suc i) (a ∷ ws) (suc v) h = Over-wake_at i ws v h

  Over-set :
      (ws : List (Phase Task)) (w : ℕ) (a b : Phase Task) (v : ℕ)
      → get_elem? ws w ≡ some a
      → a ≢ exited
      → Over ws v
      → Over (set ws w b) v
  Over-set [] w a b v g n h = h
  Over-set (x ∷ ws) zero a b zero g n h = absurd (n (cc))
  Over-set (x ∷ ws) zero a b (suc v) g n h = h
  Over-set (x ∷ ws) (suc w) a b zero g n h = h
  Over-set (x ∷ ws) (suc w) a b (suc v) g n h = Over-set ws w a b v g n h

module _ {Task Container : Type 0} where
  abbrev pub Joinable : Pool Task Container → Type 0
  Joinable p = All (Over p.workers) p.terminated_workers

  resize-Joinable :
      (threads n : ℕ) (p : Pool Task Container) → Joinable p → Joinable (resize threads n p).0
  unfolding attach notify_all_workers
  resize-Joinable threads n p v =
      resize_cases (λ r. Joinable r.0) threads n p (λ _. v)
        (λ _ _.
          grow_inv Joinable
            (λ q _ k. All-map _ _ (Over-append q.workers (fetching ∷ [])) q.terminated_workers k)
            threads (retarget n p) v)
        (λ _ _. All-map _ _ (Over-wake p.workers) p.terminated_workers v)

  set_worker-Joinable :
      (w : ℕ) (a b : Phase Task) (p : Pool Task Container)
      → get_elem? p.workers w ≡ some a
      → a ≢ exited
      → Joinable p
      → Joinable (set_worker w b p)
  set_worker-Joinable w a b p h n v =
      All-map _ _ (λ u k. Over-set p.workers w a b u h n k) p.terminated_workers v

  -- The worker `w` is at its end.
  destruct-Joinable :
      (w : ℕ) (p : Pool Task Container)
      → Over p.workers w
      → Joinable p
      → Joinable (worker_destructed w p)
  unfolding worker_destructed count_out
  destruct-Joinable w p o v =
      if_cases Joinable p.terminating _ _
        (λ _. All-append (Over p.workers) p.terminated_workers (w ∷ []) v (o, tt)) (λ _. v)

  die-Joinable :
      (threads w : ℕ) (p : Pool Task Container)
      → Over p.workers w
      → Joinable p
      → Joinable (worker_died_unexpectedly threads w p)
  unfolding worker_died_unexpectedly size_policy_worker_died count_out
  die-Joinable threads w p o v =
      if_cases Joinable p.terminating _ _
        (λ _. All-append (Over p.workers) p.terminated_workers (w ∷ []) v (o, tt))
        (λ _. resize-Joinable threads _ (count_out p) v)

  finish-Joinable : (goal : Goal) (p : Pool Task Container) → Joinable p → Joinable (finish goal p)
  unfolding finish
  finish-Joinable (at_most timed k) p v = v
  finish-Joinable none_active p v = tt

module _ {Task Container : Type 0} (S : Scheduler Task Container) where
  begin_wait-Joinable :
      (goal : Goal) (p : Pool Task Container) → Joinable p → Joinable (begin_wait S goal p)
  unfolding begin_wait
  begin_wait-Joinable goal p v =
      if_cases Joinable (must_wait S goal p) _ _ (λ _. v)
        (λ _. finish-Joinable goal (record p { clients = p.clients ++ returned ∷ [] }) v)

  resume_wait-Joinable :
      (i : ℕ) (goal : Goal) (p : Pool Task Container)
      → Joinable p
      → Joinable (resume_wait S i goal p)
  unfolding resume_wait
  resume_wait-Joinable i goal p v =
      if_cases Joinable (must_wait S goal p) _ _ (λ _. v)
        (λ _. finish-Joinable goal (set_client i returned p) v)

  schedule-Joinable :
      (chosen : ℕ) (t : Task) (p : Pool Task Container)
      → Joinable p
      → Joinable (schedule S chosen t p).0
  unfolding schedule
  schedule-Joinable chosen t p v =
      if_cases (λ (r : Pool Task Container × Bool). Joinable r.0) (S.push t p.scheduler).1 _ _
        (λ _. All-map _ _ (Over-wake_at chosen p.workers) p.terminated_workers v) (λ _. v)

  terminate-Joinable :
      (stays : Bool) (p : Pool Task Container)
      → Joinable p
      → Joinable (terminate_all_workers S stays p)
  unfolding terminate_all_workers notify_all_workers
  terminate-Joinable stays p v =
      if_cases Joinable stays _ _
        (λ _.
          begin_wait-Joinable none_active
            (notify_all_workers (record p { terminating = true; target_worker_count = 0 })) roused)
        (λ _. roused)
    where
      roused : All (Over (map wake p.workers)) p.terminated_workers
      roused = All-map _ _ (Over-wake p.workers) p.terminated_workers v

  await_task-Joinable :
      (w : ℕ) (a : Phase Task) (p : Pool Task Container)
      → get_elem? p.workers w ≡ some a
      → a ≢ exited
      → Joinable p
      → Then (λ q _. Joinable q) (await_task S w p)
  unfolding notify_all_clients
  await_task-Joinable w a p h n v =
      await_task-Then (λ q _. Joinable q) S w p (λ _ _. set_worker-Joinable w a leaving p h n v)
        (λ _ _. set_worker-Joinable w a waiting p h n v)
        (λ _ t c _ _. set_worker-Joinable w a (running t) p h n v)

  execute_task-Joinable :
      (w : ℕ) (p : Pool Task Container)
      → get_elem? p.workers w ≡ some fetching
      → Joinable p
      → Then (λ q _. Joinable q) (execute_task S w p)
  execute_task-Joinable w p h v =
      execute_task-Then (λ q _. Joinable q) S w p
        (λ _. set_worker-Joinable w fetching leaving p h (λ e. absurd (cc)) v)
        (await_task-Joinable w fetching p h (λ e. absurd (cc)) v)

  pub Step-Joinable :
      {callable : Task → Bool} {p q : Pool Task Container} {e : Event Task}
      → Step S callable p e q
      → Joinable p
      → Joinable q
  unfolding clear wait timed_wait resume_task run_end
  Step-Joinable {p} (schedules chosen t _ _) v = schedule-Joinable chosen t p v
  Step-Joinable {p} (refuses chosen t _) v = schedule-Joinable chosen t p v
  Step-Joinable clears v = v
  Step-Joinable {p} (resizes threads n _) v = resize-Joinable threads n p v
  Step-Joinable {p} (waits k) v = begin_wait-Joinable (at_most false k) p v
  Step-Joinable {p} (waits_timed k) v = begin_wait-Joinable (at_most true k) p v
  Step-Joinable {p} (terminates b) v = terminate-Joinable b p v
  Step-Joinable {p} (fetches w h e) v =
      Then-elim (λ q _. Joinable q) S w _ _ _ (execute_task-Joinable w p h v) e
  Step-Joinable {p} (resumes w h e) v =
      Then-elim (λ q _. Joinable q) S w _ _ _
        (await_task-Joinable w woken (record p { active_worker_count = inc p.active_worker_count })
          h (λ f. absurd (cc)) v)
        e
  Step-Joinable {p} (wakes w h) v = set_worker-Joinable w waiting woken p h (λ f. absurd (cc)) v
  Step-Joinable {p} (ends_task w t thrown h) v =
      set_worker-Joinable w (running t) _ p h (λ f. absurd (cc)) v
  Step-Joinable {p} (destructs w h) v =
      destruct-Joinable w (set_worker w exited p) (get_elem?-set_self p.workers w exited leaving h)
        (set_worker-Joinable w leaving exited p h (λ f. absurd (cc)) v)
  Step-Joinable {p} (dies threads w h) v =
      die-Joinable threads w (set_worker w exited p) (get_elem?-set_self p.workers w exited dying h)
        (set_worker-Joinable w dying exited p h (λ f. absurd (cc)) v)
  Step-Joinable {p} (client_resumes i goal _) v = resume_wait-Joinable i goal p v
  Step-Joinable (client_wakes i goal _) v = v
  Step-Joinable (client_times_out i k _) v = v

module _ {Task Container : Type 0} {S : Scheduler Task Container} (L : Lawful S) where
  -- In every state that a pool reaches, the workers that terminate_all_workers is going to join are over
  -- and not joined yet. So the joins, which it makes while it owns the monitor, wait for no worker
  -- that still needs the monitor.
  pub Reach-Joinable :
      {callable : Task → Bool} {p : Pool Task Container} {l : Log Task}
      → Reach L callable p l
      → All (λ w. get_elem? p.workers w ≡ some exited) p.terminated_workers
  unfolding pool_core
  Reach-Joinable start = tt
  Reach-Joinable (later r st) = Step-Joinable S st (Reach-Joinable r)
