-- ===== src/System/Starts.antt =====
-- The order in which the tasks of a pool start.
use mathlib.Core.List.{reverse, reverse-cons, reverse-append, Sublist, sublist-append_right}
use mathlib.Core.List.Sublist
use boost_threadpool.Common.{
  ◌≡◌, ap, subst, ◌∙◌, Bool, true, false, some, List, [], ◌∷◌, ◌++◌, append_assoc, All,
}
use boost_threadpool.Scheduling.Fifo.{fifo_scheduler, fifo_lawful}
use boost_threadpool.Scheduling.Fifo
use boost_threadpool.Scheduling.Containers.{select}
use boost_threadpool.Scheduling.Prio.{prio_scheduler, prio_lawful}
use boost_threadpool.Scheduling.Prio
use boost_threadpool.Scheduling.Order.{select_max}
use boost_threadpool.Core.State.{Pool, pool_core}
use boost_threadpool.Core.Execute.{left, slept, took}
use boost_threadpool.System.Effects.{Effect, Step-Effect}
use boost_threadpool.System.Steps.{
  Event, quiet, accepted, emptied, fetched, ended, Step, Log, log_event, Reach, start, later,
}

module _ {Task : Type 0} where
  abbrev InOrder : List Task → Log Task → Type 0
  InOrder pending l = Sublist (reverse pending ++ l.started) l.scheduled

  reverse-snoc : (t : Task) (c : List Task) → reverse (c ++ t ∷ []) ≡ t ∷ reverse c
  reverse-snoc t c = reverse-append c (t ∷ [])

  top_and_pop :
      (c : List Task) (t : Task) (d : List Task)
      → Fifo.top c ≡ some t
      → Fifo.pop c ≡ some d
      → c ≡ t ∷ d
  unfolding Fifo.top Fifo.pop
  top_and_pop [] t d h k = absurd (cc)
  top_and_pop (x ∷ c) t d h k = cc

  event-InOrder :
      (e : Event Task) (p : Pool Task (List Task)) (d : List Task) (l : Log Task)
      → Effect fifo_scheduler e p.scheduler d
      → InOrder p.scheduler l
      → InOrder d (log_event fifo_lawful p e l)
  unfolding Fifo.push Fifo.clear Fifo.top Fifo.pop
  event-InOrder quiet p d l h v = rw h v
  event-InOrder (accepted t) p d l h v =
      rw (← ap (λ r. r.0) h, reverse-snoc t p.scheduler) (Sublist.cons-cons t v)
  event-InOrder emptied p d l h v =
      rw h (Sublist.trans (sublist-append_right (reverse p.scheduler) l.started) v)
  event-InOrder (fetched left) p d l h v = rw h v
  event-InOrder (fetched slept) p d l h v = rw h v
  event-InOrder (fetched (took t)) p d l (_, top, pop) v =
      let e : p.scheduler ≡ t ∷ d = top_and_pop p.scheduler t d top pop in
      subst (λ xs. Sublist xs l.scheduled)
        (ap (λ c. reverse c ++ l.started) e
          ∙ ap (λ c. c ++ l.started) (reverse-cons t d)
          ∙ append_assoc (reverse d) (t ∷ []) l.started)
        v
  event-InOrder (ended t) p d l h v = rw h v

  -- In every state that a fifo pool reaches, the tasks that have started, in the order in which they
  -- started, and then the pending ones, the oldest first, are in the order in which they were scheduled;
  -- `clear` only leaves tasks out.
  pub fifo_starts :
      {callable : Task → Bool} {p : Pool Task (List Task)} {l : Log Task}
      → Reach fifo_lawful callable p l
      → Sublist (reverse p.scheduler ++ l.started) l.scheduled
  unfolding pool_core Fifo.clear
  fifo_starts start = Sublist.refl []
  fifo_starts (later {p} {q} {l} {e} r st) =
      event-InOrder e p q.scheduler l (Step-Effect fifo_lawful st) (fifo_starts r)

module _ {Task : Type 0} (less : Task → Task → Bool) (irreflexive : (t : Task) → less t t ≡ false)
    (transitive : (t u v : Task) → less t u ≡ true → less u v ≡ true → less t v ≡ true) where
  top_max :
      (c : List Task) (t : Task) (d : List Task)
      → Prio.top less c ≡ some t
      → Prio.pop less c ≡ some d
      → All (λ u. less t u ≡ false) d
  unfolding Prio.top Prio.pop
  top_max [] t d h k = absurd (cc)
  top_max (x ∷ c) t d h k =
      let e : (select less x c).0 ≡ t = cc in
      let f : (select less x c).1 ≡ d = cc in
      rw (← e, ← f) (select_max less irreflexive transitive x c)

  -- In a priority pool whose comparison is irreflexive and transitive, whenever a worker takes a task, no
  -- task that stays pending is greater.
  pub prio_starts :
      {callable : Task → Bool} {p q : Pool Task (List Task)} (t : Task)
      → Step (prio_scheduler less) callable p (fetched (took t)) q
      → All (λ u. less t u ≡ false) q.scheduler
  prio_starts {p} {q} t st =
      let (_, top, pop) = Step-Effect (prio_lawful less) st in
      top_max p.scheduler t q.scheduler top pop
