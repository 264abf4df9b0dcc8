-- ===== src/ThreadPool/Fates.antt =====
-- What a task does to its future until it ends.
use boost_threadpool.Common.{◌≡◌, refl, Bool, true, false, ◌||◌, List, arith}
use boost_threadpool.Futures.Impl.{
  FutureImpl, Canceller, asked, saw_ready, deciding, answered, is_cancelled, ready, accepts_value,
  store_ready, cancel_access, set_execution_status,
}
use boost_threadpool.Futures.Run.{
  Point, pending, started, calling, storing, writing, marking, ending, over, thrown, Call, Step,
  begins, passes, proceeds, skips, returns, throws, accepts, drops, stores, marks, ends,
  asks_cancel, cancels,
}
use boost_threadpool.ThreadPool.FutureRuns.{ByWorker, ByClient}

module _ {Result : Type 0} where
  -- The future has its value, or was cancelled.
  abbrev pub IsSettled : FutureImpl Result → Type 0
  IsSettled f = (ready f || is_cancelled f) ≡ true

  -- A task that holds a function settles its future before it ends.
  abbrev pub Fate : (holds : Bool) → Point Result → FutureImpl Result → Type 0
  Fate holds pending f = Unit
  Fate holds started f = Unit
  Fate holds calling f = Unit
  Fate holds (storing r) f = Unit
  Fate holds (writing r) f = Unit
  Fate holds marking f = Unit
  Fate holds ending f = IsSettled f
  Fate holds over f = holds ≡ true → IsSettled f
  Fate holds thrown f = Unit

  drops-IsSettled : (f : FutureImpl Result) → accepts_value f ≡ false → IsSettled f
  unfolding accepts_value ready is_cancelled
  drops-IsSettled f h = ground arith

  access-IsSettled :
      (f : FutureImpl Result) (k : Canceller) → IsSettled f → IsSettled (cancel_access f k).0
  unfolding cancel_access ready is_cancelled
  access-IsSettled f asked h = h
  access-IsSettled f saw_ready h = h
  access-IsSettled f deciding h = ground arith
  access-IsSettled f (answered b) h = h

  access-Fate :
      (holds : Bool) (p : Point Result) (f : FutureImpl Result) (k : Canceller)
      → Fate holds p f
      → Fate holds p (cancel_access f k).0
  access-Fate holds pending f k h = tt
  access-Fate holds started f k h = tt
  access-Fate holds calling f k h = tt
  access-Fate holds (storing r) f k h = tt
  access-Fate holds (writing r) f k h = tt
  access-Fate holds marking f k h = tt
  access-Fate holds ending f k h = access-IsSettled f k h
  access-Fate holds over f k h = λ e. access-IsSettled f k (h e)
  access-Fate holds thrown f k h = tt

  pub client-Fate :
      {value : Result} {f : FutureImpl Result} {cs : List Canceller} {p : Point Result}
      {d : Call Result} (holds : Bool)
      → (st : Step value f cs p d) → ByClient st
      → Fate holds p f
      → Fate holds d.point d.future
  client-Fate holds begins w h = absurd w
  client-Fate holds passes w h = absurd w
  client-Fate holds (proceeds k) w h = absurd w
  client-Fate holds (skips k) w h = absurd w
  client-Fate holds returns w h = absurd w
  client-Fate holds throws w h = absurd w
  client-Fate holds (accepts k) w h = absurd w
  client-Fate holds (drops k) w h = absurd w
  client-Fate holds stores w h = absurd w
  client-Fate holds marks w h = absurd w
  client-Fate holds ends w h = absurd w
  client-Fate holds asks_cancel w h = h
  client-Fate {f} {p} holds (cancels i k _) w h = access-Fate holds p f k h

  pub worker-Fate :
      {value : Result} {f : FutureImpl Result} {cs : List Canceller} {p : Point Result}
      {d : Call Result} (holds : Bool)
      → (st : Step value f cs p d) → ByWorker holds st
      → Fate holds p f
      → Fate holds d.point d.future
  unfolding set_execution_status ready is_cancelled store_ready
  worker-Fate holds begins w h = tt
  worker-Fate holds passes w h = λ e. cc
  worker-Fate holds (proceeds k) w h = tt
  worker-Fate holds (skips k) w h = ground arith
  worker-Fate holds returns w h = tt
  worker-Fate holds throws w h = tt
  worker-Fate holds (accepts k) w h = tt
  worker-Fate {f} holds (drops k) w h = drops-IsSettled f k
  worker-Fate holds stores w h = tt
  worker-Fate holds marks w h = refl
  worker-Fate holds ends w h = λ e. h
  worker-Fate holds asks_cancel w h = absurd w
  worker-Fate holds (cancels i k _) w h = absurd w
