-- ===== src/Futures/Answers.antt =====
-- What the clients that wait for a future learn.
use boost_threadpool.Common.{
  ◌≡◌, refl, Bool, true, false, List, [], ◌∷◌, map, subst, sym, All, All-append, All-set, All-get,
  arith,
}
use boost_threadpool.Futures.Impl.{
  FutureImpl, Canceller, must_wait, ready, store_result, store_ready, set_execution_status,
}
use boost_threadpool.Futures.Run.{
  Point, Call, Step, begins, passes, proceeds, skips, returns, throws, accepts, drops, stores,
  marks, ends, asks_cancel, cancels, Reach, made, then_step, here,
}
use boost_threadpool.Futures.Laws.{ready_value}
use boost_threadpool.Futures.Cancelling.{access-is_ready}
use boost_threadpool.Futures.Waiting.{
  Request, waits, waits_timed, gets, Waiter, asleep, awake, passed, returned, said, got, wake,
  leave_loop, loop, notify_ready, hear, World, Move, works, asks, retries, wakes, times_out, reads,
  Reaches, begun, moved,
}

module _ {Result : Type 0} (value : Result) where
  -- A client sleeps only while the future is not ready, and goes on only when it is; operator() then returns
  -- what the function returned.
  abbrev pub Right : Bool → Waiter Result → Type 0
  Right b (asleep r) = b ≡ false
  Right b (awake r) = Unit
  Right b passed = b ≡ true
  Right b returned = b ≡ true
  Right b (said true) = b ≡ true
  Right b (said false) = Unit
  Right b (got v) = (b ≡ true) × (v ≡ value)

  loop-Right : (r : Request) (f : FutureImpl Result) → Right (ready f) (loop r f)
  unfolding loop must_wait ready leave_loop
  loop-Right waits f = ground arith
  loop-Right waits_timed f = ground arith
  loop-Right gets f = ground arith

  wake-Right : (b : Bool) (w : Waiter Result) → Right b w → Right true (wake w)
  wake-Right b (asleep r) h = tt
  wake-Right b (awake r) h = tt
  wake-Right b passed h = refl
  wake-Right b returned h = refl
  wake-Right b (said true) h = refl
  wake-Right b (said false) h = tt
  wake-Right b (got v) h = (refl, h.1)

  map-wake-Right :
      (b : Bool) (ws : List (Waiter Result)) → All (Right b) ws → All (Right true) (map wake ws)
  map-wake-Right b [] h = tt
  map-wake-Right b (w ∷ ws) h = (wake-Right b w h.0, map-wake-Right b ws h.1)

  hear-Right :
      {f : FutureImpl Result} {cs : List Canceller} {p : Point Result} {d : Call Result}
      (st : Step value f cs p d) (ws : List (Waiter Result))
      → All (Right (ready f)) ws
      → All (Right (ready d.future)) (hear st ws)
  unfolding hear set_execution_status ready store_result store_ready notify_ready
  hear-Right begins ws h = h
  hear-Right passes ws h = h
  hear-Right (proceeds k) ws h = h
  hear-Right (skips k) ws h = h
  hear-Right returns ws h = h
  hear-Right throws ws h = h
  hear-Right (accepts k) ws h = h
  hear-Right (drops k) ws h = h
  hear-Right stores ws h = h
  hear-Right {f} marks ws h = map-wake-Right f.is_ready ws h
  hear-Right ends ws h = h
  hear-Right asks_cancel ws h = h
  hear-Right {f} (cancels i k _) ws h = subst (λ b. All (Right b) ws) (sym (access-is_ready f k)) h

  Move-Right :
      {junk : Result} {executing : Bool} {w v : World Result}
      → Reach value junk executing w.call
      → Move value w v
      → All (Right (ready w.call.future)) w.waiters
      → All (Right (ready v.call.future)) v.waiters
  Move-Right {w} r (works st) h = hear-Right st w.waiters h
  Move-Right {w} r (asks q m) h =
      All-append (Right (ready w.call.future)) w.waiters (loop q w.call.future ∷ []) h
        (loop-Right q w.call.future, tt)
  Move-Right {w} r (retries i q k m) h =
      All-set (Right (ready w.call.future)) w.waiters i (loop q w.call.future) h
        (loop-Right q w.call.future)
  Move-Right {w} r (wakes i q k) h =
      All-set (Right (ready w.call.future)) w.waiters i (awake q) h tt
  Move-Right {w} r (times_out i k) h =
      All-set (Right (ready w.call.future)) w.waiters i (said false) h tt
  Move-Right {w} r (reads i k) h =
      let is = All-get (Right (ready w.call.future)) w.waiters i passed h k in
      All-set (Right (ready w.call.future)) w.waiters i (got w.call.future.result) h
        (is, (ready_value value r is here).1)

  Reaches-Reach :
      {junk : Result} {executing : Bool} {w : World Result}
      → Reaches value junk executing w
      → Reach value junk executing w.call
  Reaches-Reach begun = made
  Reaches-Reach (moved r (works st)) = then_step (Reaches-Reach r) st
  Reaches-Reach (moved r (asks q m)) = Reaches-Reach r
  Reaches-Reach (moved r (retries i q k m)) = Reaches-Reach r
  Reaches-Reach (moved r (wakes i q k)) = Reaches-Reach r
  Reaches-Reach (moved r (times_out i k)) = Reaches-Reach r
  Reaches-Reach (moved r (reads i k)) = Reaches-Reach r

  -- Whatever the task, the clients that wait and those that cancel do, and in whatever order: no client of
  -- a future sleeps once the future is ready, `wait` is over and timed_wait has returned true only when
  -- the future is ready, and operator() and `get` return what the function returned.
  pub Reaches-Right :
      {junk : Result} {executing : Bool} {w : World Result}
      → Reaches value junk executing w
      → All (Right (ready w.call.future)) w.waiters
  Reaches-Right begun = tt
  Reaches-Right (moved r m) = Move-Right (Reaches-Reach r) m (Reaches-Right r)
