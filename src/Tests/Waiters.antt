-- ===== src/Tests/Waiters.antt =====
-- A client that asks for the value of a future, and another that does not wait long.
use boost_threadpool.Common.{ℕ, ◌≡◌, refl, false, [], ◌∷◌, All}
use boost_threadpool.Futures.Impl.{
  future_impl, must_wait, ready, accepts_value, store_result, store_ready, set_execution_status,
  is_cancelled,
}
use boost_threadpool.Futures.Run.{begins, proceeds, returns, accepts, stores, marks}
use boost_threadpool.Futures.Waiting.{
  gets, waits_timed, got, said, World, leave_loop, loop, notify_ready, hear, Move, works, asks,
  retries, times_out, reads, Reaches, begun, moved,
}
use boost_threadpool.Futures.Answers.{Right, Reaches-Right}

record Watched : Type 0 where
  world : World ℕ
  reaches : Reaches 23 0 false world

abbrev asleep_first : Watched
asleep_first = record { world = _; reaches = begun }

abbrev then : (h : Watched) {w : World ℕ} → Move 23 h.world w → Watched
then h {w} m = record { world = w; reaches = moved h.reaches m }

-- Both ask before the task of the future begins; one of them gives up.
asked : Watched
unfolding loop must_wait future_impl
asked = then (then (then asleep_first (asks gets refl)) (asks waits_timed refl)) (times_out 1 refl)

answered : Watched
unfolding asked loop must_wait future_impl accepts_value store_result store_ready
    set_execution_status hear is_cancelled notify_ready leave_loop
answered =
    then
      (then
        (then
          (then
            (then (then (then (then asked (works begins)) (works (proceeds refl))) (works returns))
              (works (accepts refl)))
            (works stores))
          (works marks))
        (retries 0 gets refl refl))
      (reads 0 refl)

answered_waiters : answered.world.waiters ≡ got 23 ∷ said false ∷ []
unfolding answered
answered_waiters = refl

Reaches-Right_example : All (Right 23 (ready answered.world.call.future)) answered.world.waiters
Reaches-Right_example = Reaches-Right 23 answered.reaches
