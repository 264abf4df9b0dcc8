-- ===== src/Programs/Standing.antt =====
-- Where the client of a program stands, and what it knows when a wait of its is over.
use boost_threadpool.Common.{
  ℕ, ◌≡◌, refl, ap, subst, ◌∙◌, Bool, true, false, none, some, List, length, get_elem?,
  get_elem?-append, if_cases,
}
use boost_threadpool.Scheduling.Interface.{Scheduler, Lawful}
use boost_threadpool.Core.State.{
  Goal, at_most, none_active, Client, blocked, notified, returned, timed_out, Pool,
}
use boost_threadpool.Core.Waiting.{must_wait, begin_wait, wait}
use boost_threadpool.Core.Notify.{notify_all_workers}
use boost_threadpool.Core.Shutdown.{Call, perform, terminate_all_workers}
use boost_threadpool.System.Steps.{Event, Step, Log, Reach}
use boost_threadpool.System.Completion.{wait_completes}
use boost_threadpool.System.Waits.{finish_clients}
use boost_threadpool.System.Follow.{Internal, Moves, stays, hears, sleeps, leaves, Step-Follows}
use boost_threadpool.Programs.Client.{
  Instruction, Place, Issue, schedules_it, in_vain, resizes_it, calls_it, Run, enter, issue,
  come_back, goes_on, Run-Reach,
}
use boost_threadpool.Programs.Done.{Done, quiet-Done, Internal-Done}

module _ {Task Container : Type 0} {S : Scheduler Task Container} (L : Lawful S) where
  -- A client that is, or was, in the loop of that goal.
  abbrev pub ClientOk : Pool Task Container → Goal → Client → Type 0
  ClientOk p g (blocked h) = h ≡ g
  ClientOk p g (notified h) = h ≡ g
  ClientOk p g returned = g ≡ at_most false 0 → Done L p
  ClientOk p g timed_out = ⊥

  abbrev pub Stands : Pool Task Container → Place → Type 0
  Stands p none = Unit
  Stands p (some (i, g)) = (c : Client) × (get_elem? p.clients i ≡ some c) × ClientOk p g c

  stays-ClientOk :
      (p q : Pool Task Container) (g : Goal) (c : Client)
      → (Done L p → Done L q)
      → ClientOk p g c
      → ClientOk q g c
  stays-ClientOk p q g (blocked h) keep k = k
  stays-ClientOk p q g (notified h) keep k = k
  stays-ClientOk p q g returned keep k = λ e. keep (k e)
  stays-ClientOk p q g timed_out keep k = k

  Moves-ClientOk :
      {callable : Task → Bool} {p : Pool Task Container} {l : Log Task} {c d : Client}
      (q : Pool Task Container) (g : Goal)
      → Reach L callable p l
      → (Done L p → Done L q)
      → Moves S p c d
      → ClientOk p g c
      → ClientOk q g d
  Moves-ClientOk {p} q g r keep (stays {c}) k = stays-ClientOk p q g c keep k
  Moves-ClientOk q g r keep hears k = k
  Moves-ClientOk q g r keep sleeps k = k
  Moves-ClientOk {p} q g r keep (leaves m) k = λ e.
      let (a, b, _) = wait_completes L false r (subst (λ x. must_wait S x p ≡ false) (k ∙ e) m) in
      keep (a, b)

  -- The client stands where it stood.
  goes_on-Stands :
      {callable : Task → Bool} {p q : Pool Task Container} {l : Log Task} {e : Event Task}
      (at : Place)
      → Reach L callable p l
      → (st : Step S callable p e q) → Internal st
      → Stands p at
      → Stands q at
  goes_on-Stands none r st n k = tt
  goes_on-Stands {q} (some (i, g)) r st n (c, h, k) =
      let (d, h', m) = Step-Follows S i st n c h in
      (d, h', Moves-ClientOk q g r (Internal-Done L r st n) m k)

  -- A call that waits leaves its client asleep, or finds that it need not wait.
  begin_wait-Stands :
      (g : Goal) (p : Pool Task Container)
      → (must_wait S g p ≡ false → g ≡ at_most false 0 → Done L (begin_wait S g p))
      → Stands (begin_wait S g p) (some (length p.clients, g))
  unfolding begin_wait
  begin_wait-Stands g p =
      if_cases
        (λ q.
          (must_wait S g p ≡ false → g ≡ at_most false 0 → Done L q)
          → Stands q (some (length p.clients, g)))
        (must_wait S g p) _ _ (λ _ _. (blocked g, get_elem?-append p.clients (blocked g), refl))
        (λ m k. (
          returned,
          ap (λ cs. get_elem? cs (length p.clients)) (finish_clients g _)
              ∙ get_elem?-append p.clients returned,
          k m,
        ))

  Issue-Stands :
      {callable : Task → Bool} {p q : Pool Task Container} {l : Log Task} {i : Instruction Task}
      {e : Event Task} {at : Place}
      → Reach L callable p l
      → Issue S p i e q at
      → Stands q at
  unfolding perform wait terminate_all_workers
  Issue-Stands r (schedules_it chosen t pick h) = tt
  Issue-Stands r (in_vain chosen t h) = tt
  Issue-Stands r (resizes_it threads n h) = tt
  Issue-Stands {callable} {p} r (calls_it Call.waits) =
      begin_wait-Stands (at_most false 0) p (λ m e.
        let (a, b, _) = wait_completes L false r m in
        quiet-Done L {callable = callable} r (Step.waits 0) (a, b))
  Issue-Stands r (calls_it Call.clears) = tt
  Issue-Stands {p} r (calls_it (Call.terminates true)) =
      begin_wait-Stands none_active
        (notify_all_workers (record p { terminating = true; target_worker_count = 0 })) (λ m e. cc)
  Issue-Stands r (calls_it (Call.terminates false)) = tt

  pub Run-Stands :
      {callable : Task → Bool} {program : List (Instruction Task)} {p : Pool Task Container}
      {l : Log Task} {rest : List (Instruction Task)} {at : Place}
      → Run L callable program p l rest at
      → Stands p at
  Run-Stands enter = tt
  Run-Stands (issue r i) = Issue-Stands (Run-Reach L r) i
  Run-Stands (come_back r h) = tt
  Run-Stands (goes_on {at} r st n) = goes_on-Stands at (Run-Reach L r) st n (Run-Stands r)

  -- A wait for all tasks that has returned has found nothing left to do.
  pub returned-Done :
      (p : Pool Task Container) (i : ℕ)
      → get_elem? p.clients i ≡ some returned
      → Stands p (some (i, at_most false 0))
      → Done L p
  returned-Done p i h (c, k, ok) =
      let is : c ≡ returned = cc in subst (ClientOk p (at_most false 0)) is ok refl
