-- ===== src/System/Follow.antt =====
-- What the steps that are no calls do to one client.
use boost_threadpool.Common.{
  ℕ, zero, suc, ◌≡◌, ◌⊎◌, inl, inr, refl, ap, sym, subst, ◌∙◌, Bool, false, some, List, [], ◌∷◌,
  map, get_elem?, set, if_cases, inc,
}
use boost_threadpool.Scheduling.Interface.{Scheduler}
use boost_threadpool.Core.State.{
  Goal, Client, blocked, notified, returned, timed_out, Pool, set_client,
}
use boost_threadpool.Core.Notify.{notify, notify_all_workers, notify_all_clients}
use boost_threadpool.Core.Waiting.{must_wait, resume_wait}
use boost_threadpool.Core.Resize.{
  attach, retarget, resize, count_out, worker_died_unexpectedly, worker_destructed,
  size_policy_worker_died,
}
use boost_threadpool.Core.Resize.Cases.{grow_inv, resize_cases}
use boost_threadpool.Core.Execute.{execute_task, resume_task, await_task}
use boost_threadpool.Core.Execute.Cases.{Then, Then-elim, await_task-Then, execute_task-Then}
use boost_threadpool.System.Waits.{finish_clients}
use boost_threadpool.System.Steps.{
  Event, quiet, accepted, emptied, fetched, ended, Step, schedules, refuses, clears, resizes, waits,
  waits_timed, terminates, fetches, resumes, wakes, ends_task, destructs, dies, client_resumes,
  client_wakes, client_times_out,
}

-- The steps of the workers, and those of a client inside a wait without a time limit.
abbrev pub Internal :
    {Task Container : Type 0} {S : Scheduler Task Container} {callable : Task → Bool}
    {p q : Pool Task Container} {e : Event Task}
    → Step S callable p e q
    → Type 0
Internal (schedules chosen t pick h) = ⊥
Internal (refuses chosen t h) = ⊥
Internal clears = ⊥
Internal (resizes threads n h) = ⊥
Internal (waits k) = ⊥
Internal (waits_timed k) = ⊥
Internal (terminates b) = ⊥
Internal (fetches w h e) = Unit
Internal (resumes w h e) = Unit
Internal (wakes w h) = Unit
Internal (ends_task w t thrown h) = Unit
Internal (destructs w h) = Unit
Internal (dies threads w h) = Unit
Internal (client_resumes i goal h) = Unit
Internal (client_wakes i goal h) = Unit
Internal (client_times_out i k h) = ⊥

-- What such a step may do to the tasks: a worker takes one, or one ends.
abbrev pub Plain : {Task : Type 0} → Event Task → Type 0
Plain quiet = Unit
Plain (accepted t) = ⊥
Plain emptied = ⊥
Plain (fetched o) = Unit
Plain (ended t) = Unit

pub Internal-Plain :
    {Task Container : Type 0} {S : Scheduler Task Container} {callable : Task → Bool}
    {p q : Pool Task Container} {e : Event Task}
    → (st : Step S callable p e q) → Internal st
    → Plain e
Internal-Plain (schedules chosen t pick h) n = absurd n
Internal-Plain (refuses chosen t h) n = absurd n
Internal-Plain clears n = absurd n
Internal-Plain (resizes threads k h) n = absurd n
Internal-Plain (waits k) n = absurd n
Internal-Plain (waits_timed k) n = absurd n
Internal-Plain (terminates b) n = absurd n
Internal-Plain (fetches w h e) n = tt
Internal-Plain (resumes w h e) n = tt
Internal-Plain (wakes w h) n = tt
Internal-Plain (ends_task w t thrown h) n = tt
Internal-Plain (destructs w h) n = tt
Internal-Plain (dies threads w h) n = tt
Internal-Plain (client_resumes i goal h) n = tt
Internal-Plain (client_wakes i goal h) n = tt
Internal-Plain (client_times_out i k h) n = absurd n

module _ {Task Container : Type 0} (S : Scheduler Task Container) where
  -- How a client moves in a step from the pool `p`.
  pub data Moves (p : Pool Task Container) : Client → Client → Type 0 where
    stays : {c : Client} → Moves p c c
    hears : {g : Goal} → Moves p (blocked g) (notified g)
    sleeps : {g : Goal} → Moves p (notified g) (blocked g)
    leaves : {g : Goal} → must_wait S g p ≡ false → Moves p (notified g) returned

  abbrev FollowsTo : (i : ℕ) → Pool Task Container → List Client → Type 0
  FollowsTo i p cs =
      (c : Client)
      → get_elem? p.clients i ≡ some c
      → (d : Client) × (get_elem? cs i ≡ some d) × Moves p c d

  -- Client `i` moves as it may.
  abbrev pub Follows : (i : ℕ) (p q : Pool Task Container) → Type 0
  Follows i p q =
      (c : Client)
      → get_elem? p.clients i ≡ some c
      → (d : Client) × (get_elem? q.clients i ≡ some d) × Moves p c d

  same_clients :
      (i : ℕ) (p : Pool Task Container) (ds : List Client) → ds ≡ p.clients → FollowsTo i p ds
  same_clients i p ds e c h = (c, ap (λ cs. get_elem? cs i) e ∙ h, stays)

  notify-Moves : (p : Pool Task Container) (c : Client) → Moves p c (notify c)
  notify-Moves p (blocked g) = hears
  notify-Moves p (notified g) = stays
  notify-Moves p returned = stays
  notify-Moves p timed_out = stays

  get-notify :
      (cs : List Client) (i : ℕ) (c : Client)
      → get_elem? cs i ≡ some c
      → get_elem? (map notify cs) i ≡ some (notify c)
  get-notify [] i c h = absurd (cc)
  get-notify (x ∷ cs) zero c h = let e : x ≡ c = cc in ap (λ y. some (notify y)) e
  get-notify (x ∷ cs) (suc i) c h = get-notify cs i c h

  notified_clients :
      (i : ℕ) (p : Pool Task Container) (ds : List Client)
      → ds ≡ map notify p.clients
      → FollowsTo i p ds
  notified_clients i p ds e c h =
      (notify c, ap (λ cs. get_elem? cs i) e ∙ get-notify p.clients i c h, notify-Moves p c)

  -- One client, `j`, goes from `a` to `b`.
  set_one :
      (cs : List Client) (j i : ℕ) (a b c : Client)
      → get_elem? cs j ≡ some a
      → get_elem? cs i ≡ some c
      → (get_elem? (set cs j b) i ≡ some c) ⊎ ((get_elem? (set cs j b) i ≡ some b) × (c ≡ a))
  set_one [] j i a b c h k = absurd (cc)
  set_one (x ∷ cs) zero zero a b c h k = inr (refl, cc)
  set_one (x ∷ cs) zero (suc i) a b c h k = inl k
  set_one (x ∷ cs) (suc j) zero a b c h k = inl k
  set_one (x ∷ cs) (suc j) (suc i) a b c h k = set_one cs j i a b c h k

  changed_client :
      (i j : ℕ) (a b : Client) (p : Pool Task Container) (ds : List Client)
      → get_elem? p.clients j ≡ some a
      → Moves p a b
      → ds ≡ set p.clients j b
      → FollowsTo i p ds
  changed_client i j a b p ds h m e c k = elim (set_one p.clients j i a b c h k) [
    | inl same ↦ (c, ap (λ cs. get_elem? cs i) e ∙ same, stays)
    | inr (moved, is) ↦
        (b, ap (λ cs. get_elem? cs i) e ∙ moved, subst (λ x. Moves p x b) (sym is) m)
  ]

module _ {Task Container : Type 0} where
  clients-resize :
      (threads n : ℕ) (p : Pool Task Container) → (resize threads n p).0.clients ≡ p.clients
  unfolding attach notify_all_workers
  clients-resize threads n p =
      resize_cases (λ r. r.0.clients ≡ p.clients) threads n p (λ _. refl)
        (λ _ _. grow_inv (λ q. q.clients ≡ p.clients) (λ q _ k. k) threads (retarget n p) refl)
        (λ _ _. refl)

  clients-destructed :
      (w : ℕ) (p : Pool Task Container) → (worker_destructed w p).clients ≡ map notify p.clients
  unfolding worker_destructed count_out notify_all_clients
  clients-destructed w p =
      if_cases (λ (q : Pool Task Container). q.clients ≡ map notify p.clients) p.terminating _ _
        (λ _. refl) (λ _. refl)

  clients-died :
      (threads w : ℕ) (p : Pool Task Container)
      → (worker_died_unexpectedly threads w p).clients ≡ map notify p.clients
  unfolding worker_died_unexpectedly size_policy_worker_died count_out notify_all_clients
  clients-died threads w p =
      if_cases (λ (q : Pool Task Container). q.clients ≡ map notify p.clients) p.terminating _ _
        (λ _. refl) (λ _. clients-resize threads _ (count_out p))

module _ {Task Container : Type 0} (S : Scheduler Task Container) (i : ℕ) where
  await_task-Follows :
      (w : ℕ) (p r : Pool Task Container)
      → p.clients ≡ r.clients
      → Then (λ q _. Follows S i r q) (await_task S w p)
  unfolding notify_all_clients
  await_task-Follows w p r e =
      await_task-Then (λ q _. Follows S i r q) S w p (λ _ _. same_clients S i r _ e)
        (λ _ _. notified_clients S i r _ (ap (map notify) e)) (λ _ t c _ _. same_clients S i r _ e)

  execute_task-Follows :
      (w : ℕ) (p : Pool Task Container) → Then (λ q _. Follows S i p q) (execute_task S w p)
  execute_task-Follows w p =
      execute_task-Then (λ q _. Follows S i p q) S w p (λ _. same_clients S i p _ refl)
        (await_task-Follows w p p refl)

  resume_wait-Follows :
      (j : ℕ) (goal : Goal) (p : Pool Task Container)
      → get_elem? p.clients j ≡ some (notified goal)
      → Follows S i p (resume_wait S j goal p)
  unfolding resume_wait
  resume_wait-Follows j goal p h =
      if_cases (Follows S i p) (must_wait S goal p) _ _
        (λ _. changed_client S i j (notified goal) (blocked goal) p _ h sleeps refl)
        (λ e.
          changed_client S i j (notified goal) returned p _ h (leaves e)
            (finish_clients goal (set_client j returned p)))

  pub Step-Follows :
      {callable : Task → Bool} {p q : Pool Task Container} {e : Event Task}
      → (st : Step S callable p e q) → Internal st
      → Follows S i p q
  unfolding resume_task
  Step-Follows {p} (fetches w h e) n =
      Then-elim (λ q _. Follows S i p q) S w _ _ _ (execute_task-Follows w p) e
  Step-Follows {p} (resumes w h e) n =
      Then-elim (λ q _. Follows S i p q) S w _ _ _
        (await_task-Follows w (record p { active_worker_count = inc p.active_worker_count }) p refl)
        e
  Step-Follows {p} (wakes w h) n = same_clients S i p _ refl
  Step-Follows {p} (ends_task w t thrown h) n = same_clients S i p _ refl
  Step-Follows {p} (destructs w h) n = notified_clients S i p _ (clients-destructed w _)
  Step-Follows {p} (dies threads w h) n = notified_clients S i p _ (clients-died threads w _)
  Step-Follows {p} (client_resumes j goal h) n = resume_wait-Follows j goal p h
  Step-Follows {p} (client_wakes j goal h) n =
      changed_client S i j (blocked goal) (notified goal) p _ h hears refl
  Step-Follows (schedules chosen t pick h) n = absurd n
  Step-Follows (refuses chosen t h) n = absurd n
  Step-Follows clears n = absurd n
  Step-Follows (resizes threads k h) n = absurd n
  Step-Follows (waits k) n = absurd n
  Step-Follows (waits_timed k) n = absurd n
  Step-Follows (terminates b) n = absurd n
  Step-Follows (client_times_out j k h) n = absurd n
