-- ===== src/ThreadPool/Settled.antt =====
-- What became of the futures whose tasks the pool has finished.
use boost_threadpool.Common.{
  ℕ, ◌≡◌, ◌∙◌, ap, ◌⊎◌, inl, inr, refl, sym, subst, Bool, true, false, some, List, [], ◌∷◌, ◌++◌,
  get_elem?, set, All, All-map, get_elem?-grow, append_cases, set_cases, after_set,
}
use boost_threadpool.Scheduling.Interface.{Scheduler, Lawful}
use boost_threadpool.Core.State.{Pool}
use boost_threadpool.System.Steps.{Event, quiet, accepted, emptied, fetched, ended, Log, log_event}
use boost_threadpool.Core.Execute.{left, slept, took}
use boost_threadpool.Futures.Impl.{FutureImpl, Canceller, future_impl, ready}
use boost_threadpool.Futures.Run.{
  Point, pending, started, calling, storing, writing, marking, ending, over, thrown, Call, Step,
  begins, passes, proceeds, skips, returns, throws, accepts, drops, stores, marks, ends,
  asks_cancel, cancels, Reach, made, then_step, here,
}
use boost_threadpool.Futures.Laws.{ready_value}
use boost_threadpool.ThreadPool.Schedule.{FutureTask}
use boost_threadpool.ThreadPool.Fates.{IsSettled, Fate, client-Fate, worker-Fate}
use boost_threadpool.ThreadPool.FutureRuns.{
  FutureWorld, ByItself, ByWorker, ByClient, Ended, normally, by_exception, FutureStep,
  schedules_future, schedules_in_vain, pool_moves, computes, cancels_future, ends_task, FutureReach,
  begun, moved,
}

module _ {Result Function Container : Type 0} {S : Scheduler (FutureTask Function) Container}
    (L : Lawful S) (value : ℕ → Result) (holds : ℕ → Bool) where
  -- The call of the task for future `i`, at some point of its way.
  abbrev Underway : ℕ → Call Result → Type 0
  Underway i c =
      ((junk : Result) × (executing : Bool) × Reach (value i) junk executing c)
      × Fate (holds i) c.point c.future

  abbrev AllUnderway : List (Call Result) → Type 0
  AllUnderway cs = (i : ℕ) (c : Call Result) → get_elem? cs i ≡ some c → Underway i c

  abbrev at_end : Point Result → Bool
  at_end pending = false
  at_end started = false
  at_end calling = false
  at_end (storing r) = false
  at_end (writing r) = false
  at_end marking = false
  at_end ending = false
  at_end over = true
  at_end thrown = true

  -- The task's call is over, or was left by an exception.
  abbrev pub Finished : List (Call Result) → FutureTask Function → Type 0
  Finished cs t = (c : Call Result) × (get_elem? cs t.future ≡ some c) × (at_end c.point ≡ true)

  new-AllUnderway :
      (cs : List (Call Result)) (junk : Result) (executing : Bool)
      → AllUnderway cs
      → AllUnderway (
          cs
          ++ record { point = pending; future = future_impl junk executing; cancellers = [] } ∷ [])
  new-AllUnderway cs junk executing h i c k = elim (append_cases cs _ c i k) [
    | inl old ↦ h i c old
    | inr new ↦ subst (Underway i) new ((junk, executing, made), tt)
  ]

  set-AllUnderway :
      (cs : List (Call Result)) (i : ℕ) (d : Call Result)
      → AllUnderway cs
      → Underway i d
      → AllUnderway (set cs i d)
  set-AllUnderway cs i d h u j c k = elim (set_cases cs i j d c k) [
    | inl old ↦ h j c old
    | inr (is, new) ↦ subst (Underway j) new (subst (λ n. Underway n d) (sym is) u)
  ]

  -- A write that leaves a finished call where it is.
  set-Finished :
      (cs : List (Call Result)) (i : ℕ) (c d : Call Result)
      → get_elem? cs i ≡ some c
      → (at_end c.point ≡ true → at_end d.point ≡ true)
      → (t : FutureTask Function) → Finished cs t
      → Finished (set cs i d) t
  set-Finished cs i c d k keep t (b, h, f) = elim (after_set cs i t.future d b h) [
    | inl same ↦ (b, same, f)
    | inr (is, new) ↦
        let at : b ≡ c = (let h' = subst (λ n. get_elem? cs n ≡ some b) is h in cc) in
        (d, new, keep (subst (λ x. at_end x.point ≡ true) at f))
  ]

  -- A worker makes no step at the end of a call.
  no-Step :
      {v : Result} {f : FutureImpl Result} {cs : List Canceller} {p : Point Result}
      {d : Call Result} (b : Bool)
      → (st : Step v f cs p d) → ByWorker b st
      → at_end p ≡ true
      → ⊥
  no-Step b begins w h = cc
  no-Step b passes w h = cc
  no-Step b (proceeds k) w h = cc
  no-Step b (skips k) w h = cc
  no-Step b returns w h = cc
  no-Step b throws w h = cc
  no-Step b (accepts k) w h = cc
  no-Step b (drops k) w h = cc
  no-Step b stores w h = cc
  no-Step b marks w h = cc
  no-Step b ends w h = cc
  no-Step b asks_cancel w h = w
  no-Step b (cancels i k _) w h = w

  -- A client leaves the task where it is.
  client-point :
      {v : Result} {f : FutureImpl Result} {cs : List Canceller} {p : Point Result}
      {d : Call Result}
      → (st : Step v f cs p d) → ByClient st
      → d.point ≡ p
  client-point begins w = absurd w
  client-point passes w = absurd w
  client-point (proceeds k) w = absurd w
  client-point (skips k) w = absurd w
  client-point returns w = absurd w
  client-point throws w = absurd w
  client-point (accepts k) w = absurd w
  client-point (drops k) w = absurd w
  client-point stores w = absurd w
  client-point marks w = absurd w
  client-point ends w = absurd w
  client-point asks_cancel w = refl
  client-point (cancels i k _) w = refl

  record Holds (w : FutureWorld Result Function Container) (l : Log (FutureTask Function))
      : Type 0 where
    underway : AllUnderway w.calls
    all_finished : All (Finished w.calls) l.finished

  computed-Underway :
      {c d : Call Result} (i : ℕ) (st : Step (value i) c.future c.cancellers c.point d)
      → ByWorker (holds i) st
      → Underway i c
      → Underway i d
  computed-Underway i st b ((junk, executing, r), f) =
      ((junk, executing, then_step r st), worker-Fate (holds i) st b f)

  cancelled-Underway :
      {c d : Call Result} (i : ℕ) (st : Step (value i) c.future c.cancellers c.point d)
      → ByClient st
      → Underway i c
      → Underway i d
  cancelled-Underway i st b ((junk, executing, r), f) =
      ((junk, executing, then_step r st), client-Fate (holds i) st b f)

  Ended-at_end : {p : Point Result} {b : Bool} → Ended p b → at_end p ≡ true
  Ended-at_end normally = refl
  Ended-at_end by_exception = refl

  itself_finished :
      (p : Pool (FutureTask Function) Container) (l : Log (FutureTask Function))
      (e : Event (FutureTask Function))
      → ByItself e
      → (log_event L p e l).finished ≡ l.finished
  itself_finished p l quiet h = refl
  itself_finished p l (accepted t) h = absurd h
  itself_finished p l emptied h = refl
  itself_finished p l (fetched left) h = refl
  itself_finished p l (fetched slept) h = refl
  itself_finished p l (fetched (took t)) h = refl
  itself_finished p l (ended t) h = absurd h

  Step-Holds :
      {w v : FutureWorld Result Function Container} {e : Event (FutureTask Function)}
      (l : Log (FutureTask Function))
      → FutureStep S value holds w e v
      → Holds w l
      → Holds v (log_event L w.pool e l)
  Step-Holds {w} l (schedules_future chosen junk executing f pick h) a = record {
    underway = new-AllUnderway w.calls junk executing a.underway;
    all_finished =
        All-map _ _ (λ t (c, k, e). (c, get_elem?-grow w.calls _ t.future c k, e)) l.finished
          a.all_finished;
  }
  Step-Holds {w} l (schedules_in_vain chosen junk executing f h) a = record {
    underway = new-AllUnderway w.calls junk executing a.underway;
    all_finished =
        All-map _ _ (λ t (c, k, e). (c, get_elem?-grow w.calls _ t.future c k, e)) l.finished
          a.all_finished;
  }
  Step-Holds {w} l (pool_moves {e} st b) a = record {
    underway = a.underway;
    all_finished =
        subst (All (Finished w.calls)) (sym (itself_finished w.pool l e b)) a.all_finished;
  }
  Step-Holds {w} l (computes worker t c {d} h k st b) a = record {
    underway =
        set-AllUnderway w.calls t.future d a.underway
          (computed-Underway t.future st b (a.underway t.future c k));
    all_finished =
        All-map _ _
          (set-Finished w.calls t.future c d k (λ e. absurd (no-Step (holds t.future) st b e)))
          l.finished a.all_finished;
  }
  Step-Holds {w} l (cancels_future i c {d} k st b) a = record {
    underway =
        set-AllUnderway w.calls i d a.underway (cancelled-Underway i st b (a.underway i c k));
    all_finished =
        All-map _ _ (set-Finished w.calls i c d k (λ e. ap at_end (client-point st b) ∙ e))
          l.finished a.all_finished;
  }
  Step-Holds l (ends_task worker t c by_throw h k e) a = record {
    underway = a.underway;
    all_finished = ((c, k, Ended-at_end e), a.all_finished);
  }

  Reach-Holds :
      {w : FutureWorld Result Function Container} {l : Log (FutureTask Function)}
      → FutureReach L value holds w l
      → Holds w l
  Reach-Holds begun = record { underway = λ i c h. absurd (cc); all_finished = tt }
  Reach-Holds (moved {l} r st) = Step-Holds l st (Reach-Holds r)

  -- What a client finds of a finished task's future.
  abbrev pub Kept : List (Call Result) → FutureTask Function → Type 0
  Kept cs t =
      (c : Call Result) × (get_elem? cs t.future ≡ some c)
      × ((c.point ≡ thrown) ⊎ ((c.point ≡ over) × (holds t.future ≡ true → IsSettled c.future)))
      × (ready c.future ≡ true → c.future.result ≡ value t.future)

  Fate-at_end :
      (b : Bool) (p : Point Result) (f : FutureImpl Result)
      → at_end p ≡ true
      → Fate b p f
      → (p ≡ thrown) ⊎ ((p ≡ over) × (b ≡ true → IsSettled f))
  Fate-at_end b pending f h k = absurd (cc)
  Fate-at_end b started f h k = absurd (cc)
  Fate-at_end b calling f h k = absurd (cc)
  Fate-at_end b (storing r) f h k = absurd (cc)
  Fate-at_end b (writing r) f h k = absurd (cc)
  Fate-at_end b marking f h k = absurd (cc)
  Fate-at_end b ending f h k = absurd (cc)
  Fate-at_end b over f h k = inr (refl, k)
  Fate-at_end b thrown f h k = inl refl

  kept :
      (cs : List (Call Result))
      → AllUnderway cs
      → (t : FutureTask Function) → Finished cs t
      → Kept cs t
  kept cs u t (c, h, e) =
      let ((junk, executing, r), f) = u t.future c h in
      (
        c,
        h,
        Fate-at_end (holds t.future) c.point c.future e f,
        λ k. (ready_value (value t.future) r k here).1,
      )

  -- In every world that a pool with tasks for futures reaches, whatever workers, clients and
  -- cancellations do: each task that the pool has finished has a future, and its function has thrown, or the
  -- future has its value or was cancelled, if there was a function to call; and a future that is
  -- ready holds what the function of its own task returned.
  pub finished-Kept :
      {w : FutureWorld Result Function Container} {l : Log (FutureTask Function)}
      → FutureReach L value holds w l
      → All (Kept w.calls) l.finished
  finished-Kept {w} {l} r =
      let a = Reach-Holds r in
      All-map (Finished w.calls) (Kept w.calls) (kept w.calls a.underway) l.finished a.all_finished
