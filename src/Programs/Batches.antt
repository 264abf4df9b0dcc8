-- ===== src/Programs/Batches.antt =====
-- Programs whose last wait comes after their last task, batch by batch.
use mathlib.Core.List.Perm
use boost_threadpool.Common.{
  ℕ, zero, suc, arith, ◌≡◌, refl, ap, sym, subst, ◌∙◌, Bool, true, false, none, some, List, [], ◌∷◌,
  ◌++◌, Perm, get_elem?, append-nil,
}
use boost_threadpool.Scheduling.Interface.{Scheduler, Lawful}
use boost_threadpool.Core.State.{at_most, none_active, returned, Goal, Pool}
use boost_threadpool.Core.Execute.{left, slept, took}
use boost_threadpool.Core.Shutdown.{Call}
use boost_threadpool.System.Steps.{Event, quiet, accepted, emptied, fetched, ended, Log, log_event}
use boost_threadpool.System.Completion.{all_finished}
use boost_threadpool.System.Follow.{Plain, Internal-Plain}
use boost_threadpool.Programs.Client.{
  Instruction, Place, Issue, schedules_it, in_vain, resizes_it, calls_it, Run, enter, issue,
  come_back, goes_on, Run-Reach,
}
use boost_threadpool.Programs.Standing.{returned-Done, Run-Stands}
use boost_threadpool.Programs.Invariant.{WillWait, Accepting, schedule-accepts}
use boost_threadpool.Programs.Divided.{
  rev_onto, rev_onto_twice, batches, InBatches, Batched, quiet-Batched, schedule-Batched,
  end-Batched, whole, close-Batched,
}
use boost_threadpool.Programs.Completion.{NoClears, Run_drops_none, program_completes}

module _ {Task Container : Type 0} {S : Scheduler Task Container} (L : Lawful S) where
  Issue-Batched :
      {p q : Pool Task Container} {i : Instruction Task} {e : Event Task} {at : Place}
      {l : Log Task} {program : List (Instruction Task)} (rest : List (Instruction Task))
      → Accepting S
      → NoClears (i ∷ rest)
      → Issue S p i e q at
      → Batched program (i ∷ rest) none l
      → Batched program rest at (log_event L p e l)
  Issue-Batched {p} rest a n (schedules_it chosen t pick h) b = schedule-Batched t b
  Issue-Batched {p} rest a n (in_vain chosen t h) b =
      absurd (ground (arith, schedule-accepts L chosen t p, a t p.scheduler))
  Issue-Batched rest a n (resizes_it threads k h) b = quiet-Batched b refl refl refl
  Issue-Batched rest a n (calls_it Call.waits) b = quiet-Batched b refl refl refl
  Issue-Batched rest a n (calls_it Call.clears) b = absurd n
  Issue-Batched rest a n (calls_it (Call.terminates true)) b = quiet-Batched b refl refl refl
  Issue-Batched rest a n (calls_it (Call.terminates false)) b = quiet-Batched b refl refl refl

  moves-Batched :
      {program rest : List (Instruction Task)} {at : Place} (l : Log Task) (p : Pool Task Container)
      (e : Event Task)
      → Plain e
      → Batched program rest at l
      → Batched program rest at (log_event L p e l)
  moves-Batched l p quiet n b = b
  moves-Batched l p (accepted t) n b = absurd n
  moves-Batched l p emptied n b = absurd n
  moves-Batched l p (fetched left) n b = b
  moves-Batched l p (fetched slept) n b = b
  moves-Batched l p (fetched (took t)) n b = quiet-Batched b refl refl refl
  moves-Batched l p (ended t) n b = end-Batched t b

  back-Batched :
      {callable : Task → Bool} {program rest : List (Instruction Task)} {p : Pool Task Container}
      {l : Log Task} (c : ℕ) (g : Goal)
      → Run L callable program p l rest (some (c, g))
      → get_elem? p.clients c ≡ some returned
      → l.dropped ≡ []
      → Batched program rest (some (c, g)) l
      → Batched program rest none l
  back-Batched {p} {l} c (at_most false zero) r h e b =
      let d = returned-Done L p c h (Run-Stands L r) in
      let all = all_finished L (Run-Reach L r) d.0 d.1 in
      let same : l.finished ++ l.dropped ≡ l.finished =
        ap (λ ts. l.finished ++ ts) e ∙ append-nil l.finished in
      close-Batched (subst (Perm l.scheduled) same all) b
  back-Batched c (at_most false (suc k)) r h e b = quiet-Batched b refl refl refl
  back-Batched c (at_most true k) r h e b = quiet-Batched b refl refl refl
  back-Batched c none_active r h e b = quiet-Batched b refl refl refl

  Run-Batched :
      {callable : Task → Bool} {program : List (Instruction Task)} {p : Pool Task Container}
      {l : Log Task} {rest : List (Instruction Task)} {at : Place}
      → Accepting S
      → NoClears program
      → Run L callable program p l rest at
      → Batched program rest at l
  Run-Batched a n enter = record {
    past = [];
    current = [];
    divided = refl;
    past_scheduled = [];
    scheduled = refl;
    past_finished = [];
    now_finished = [];
    finished = refl;
    as_many = Perm.rfl;
    in_batches = refl;
  }
  Run-Batched a n (issue {rest} r i) =
      Issue-Batched rest a (Run_drops_none L n r).1 i (Run-Batched a n r)
  Run-Batched a n (come_back {c} {g} r h) =
      back-Batched c g r h (Run_drops_none L n r).0 (Run-Batched a n r)
  Run-Batched a n (goes_on {p} {l} {e} r st m) =
      moves-Batched l p e (Internal-Plain st m) (Run-Batched a n r)

  -- A client that runs a program to its end, alone with the pool's workers, over a scheduler that
  -- refuses no task, without calling `clear`, and that waits for all tasks after it has scheduled the last one: the
  -- waits divide its tasks into batches, and the pool finishes all tasks of a batch, each once, in
  -- some order, before it finishes any task of the next batch.
  pub batches_finish :
      {callable : Task → Bool} {program : List (Instruction Task)} {p : Pool Task Container}
      {l : Log Task}
      → Accepting S
      → NoClears program
      → WillWait program
      → Run L callable program p l [] none
      → InBatches (rev_onto (batches program []) []) l.finished
  batches_finish {program} {p} {l} a n w r =
      let b = Run-Batched a n r in
      let (d, _) = program_completes L a w r in
      let all = all_finished L (Run-Reach L r) d.0 d.1 in
      let same : l.finished ++ l.dropped ≡ l.finished =
        ap (λ ts. l.finished ++ ts) (Run_drops_none L n r).0 ∙ append-nil l.finished in
      let divided : rev_onto (batches program []) [] ≡ b.current ∷ b.past =
        ap (λ bs. rev_onto bs []) b.divided
        ∙ rev_onto_twice b.past (b.current ∷ []) []
        ∙ ap (◌∷◌ b.current) (append-nil b.past) in
      subst (λ bs. InBatches bs l.finished) (sym divided)
        (
          b.now_finished,
          b.past_finished,
          b.finished,
          whole b (subst (Perm l.scheduled) same all),
          b.in_batches,
        )
