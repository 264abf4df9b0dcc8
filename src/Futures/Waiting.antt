-- ===== src/Futures/Waiting.antt =====
-- The clients that wait for a future: `wait`, timed_wait and operator() of future_impl, with the condition
-- variable m_condition_ready, beside the task that sets the value.
use boost_threadpool.Common.{
  ℕ, ◌≡◌, Bool, true, false, some, List, [], ◌∷◌, ◌++◌, map, get_elem?, set, if◌then◌else◌,
}
use boost_threadpool.Futures.Impl.{FutureImpl, Canceller, future_impl, must_wait}
use boost_threadpool.Futures.Run.{
  Point, pending, Call, Step, owns_monitor, begins, passes, proceeds, skips, returns, throws,
  accepts, drops, stores, marks, ends, asks_cancel, cancels,
}

-- The members of `future` that wait: `wait`, timed_wait, and operator() or `get`.
pub data Request : Type 0 where
  waits waits_timed gets : Request

-- Where a client stands.
pub data Waiter (Result : Type 0) : Type 0 where
  asleep : Request → Waiter Result  -- in m_condition_ready.wait or timed_wait
  awake : Request → Waiter Result  -- notified there, before it owns m_monitor again
  passed : Waiter Result  -- in operator(), after its `wait`
  returned : Waiter Result  -- `wait` is over
  said : Bool → Waiter Result  -- timed_wait has returned that
  got : Result → Waiter Result  -- operator() has returned that

module _ {Result : Type 0} where
  abbrev pub wake : Waiter Result → Waiter Result
  wake (asleep r) = awake r
  wake (awake r) = awake r
  wake passed = passed
  wake returned = returned
  wake (said b) = said b
  wake (got v) = got v

  -- What follows the loop.
  unfoldable pub leave_loop : Request → Waiter Result
  leave_loop waits = returned
  leave_loop waits_timed = said true
  leave_loop gets = passed

  -- A client comes to its loop, or goes round it again.
  unfoldable pub loop : Request → FutureImpl Result → Waiter Result
  unfolding must_wait leave_loop
  loop r f = if must_wait f then asleep r else leave_loop r

  -- set_value notifies all clients when it has stored the value.
  unfoldable pub notify_ready : List (Waiter Result) → List (Waiter Result)
  notify_ready ws = map wake ws

  -- What an access of the task does to the clients.
  unfoldable pub hear :
      {value : Result} {f : FutureImpl Result} {cs : List Canceller} {p : Point Result}
      {d : Call Result}
      → Step value f cs p d
      → List (Waiter Result)
      → List (Waiter Result)
  unfolding notify_ready
  hear begins ws = ws
  hear passes ws = ws
  hear (proceeds h) ws = ws
  hear (skips h) ws = ws
  hear returns ws = ws
  hear throws ws = ws
  hear (accepts h) ws = ws
  hear (drops h) ws = ws
  hear stores ws = ws
  hear marks ws = notify_ready ws
  hear ends ws = ws
  hear asks_cancel ws = ws
  hear (cancels i k h) ws = ws

pub record World (Result : Type 0) : Type 0 where
  pub call : Call Result
  pub waiters : List (Waiter Result)

pub data Move {Result : Type 0} (value : Result) (w : World Result) : World Result → Type 0 where
  works :
      {d : Call Result} (st : Step value w.call.future w.call.cancellers w.call.point d)
      → Move value w (record { call = d; waiters = hear st w.waiters })
  asks :
      (r : Request)
      → owns_monitor w.call.point ≡ false
      → Move value w (record w { waiters = w.waiters ++ loop r w.call.future ∷ [] })
  retries :
      (i : ℕ) (r : Request)
      → get_elem? w.waiters i ≡ some (awake r)
      → owns_monitor w.call.point ≡ false
      → Move value w (record w { waiters = set w.waiters i (loop r w.call.future) })
  -- a condition variable may wake a thread that was not notified
  wakes :
      (i : ℕ) (r : Request)
      → get_elem? w.waiters i ≡ some (asleep r)
      → Move value w (record w { waiters = set w.waiters i (awake r) })
  -- what timed_wait returns then depends on nothing that happens until it has m_monitor again
  times_out :
      (i : ℕ)
      → get_elem? w.waiters i ≡ some (asleep waits_timed)
      → Move value w (record w { waiters = set w.waiters i (said false) })
  reads :
      (i : ℕ)
      → get_elem? w.waiters i ≡ some passed
      → Move value w (record w { waiters = set w.waiters i (got w.call.future.result) })

-- The worlds from the construction of the future on.
pub data Reaches {Result : Type 0} (value junk : Result) (executing : Bool)
    : World Result → Type 0 where
  begun : Reaches value junk executing (record {
    call = record { point = pending; future = future_impl junk executing; cancellers = [] };
    waiters = [];
  })
  moved :
      {w v : World Result}
      → Reaches value junk executing w
      → Move value w v
      → Reaches value junk executing v
