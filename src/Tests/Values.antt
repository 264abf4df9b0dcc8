-- ===== src/Tests/Values.antt =====
-- Looped tasks and futures.
use boost_threadpool.Common.{
  ℕ, ◌+◌, ◌*◌, ◌^◌, ◌⊎◌, ◌<◌, ◌≡◌, refl, Bool, true, false, some, [], ◌∷◌, arith, ltb,
}
use boost_threadpool.Adaptors.Looped.{
  XTime, looped_task_func, wake_time, run, rounds, break_exact, looped_run, calls, yields,
}
use boost_threadpool.Futures.Impl.{
  asked, deciding, answered, future_impl, ready, accepts_value, store_result, store_ready, cancel,
  cancel_access, is_cancelled, must_wait, set_execution_status,
}
use boost_threadpool.Futures.Run.{
  ending, over, Call, begins, proceeds, returns, accepts, stores, marks, ends, skips, asks_cancel,
  cancels, Step, Reach, made, then_step, here, next,
}
use boost_threadpool.Futures.Cancelling.{cancel_for_good}
use boost_threadpool.Futures.Laws.{cancel_answer}

abbrev noon : ℕ → XTime
noon i = record { sec = 43200 + i; nsec = 999999999 }

break_exact_example :
    let t = looped_task_func true 1500 in
    (t.break_s * 1000000000 + t.break_ns ≡ 1500000000)
    × (t.break_ns < 1000000000)
    × ((wake_time t (noon 0)).nsec < 2 ^ 31)
    × ((wake_time t (noon 0)).sec * 1000000000 + (wake_time t (noon 0)).nsec ≡ 43202499999999)
break_exact_example = break_exact true 1500 (noon 0) (omega arith) (omega arith)

-- The nanoseconds of the time to sleep until are not carried over into the seconds.
wake_time_overflows :
    wake_time (looped_task_func true 1500) (noon 0) ≡ record { sec = 43201; nsec = 1499999999 }
unfolding wake_time looped_task_func
wake_time_overflows = refl

-- `looped_task` of the tutorial returns false at its fifth call.
abbrev five_loops : ℕ → Bool
five_loops i = ltb (i + 1) 5

looped_run_example : run (looped_task_func true 1500) five_loops noon 6 ≡ some (rounds 1500 noon 4)
looped_run_example =
    looped_run 1500 five_loops noon 4 6 (omega arith) (λ j h. ground arith) refl (omega arith)

without_break :
    run (looped_task_func true 0) (λ i. ltb i 1) noon 9 ≡ some (calls ∷ yields ∷ calls ∷ [])
unfolding run looped_task_func
without_break = refl

-- A task that returns 42, from its start to the value stored.
record Story : Type 0 where
  call : Call ℕ
  reach : Reach 42 0 true call

abbrev made_first : Story
made_first = record { call = _; reach = made }

abbrev and_then :
    (s : Story) {d : Call ℕ} → Step 42 s.call.future s.call.cancellers s.call.point d → Story
and_then s {d} st = record { call = d; reach = then_step s.reach st }

accepted : Story
unfolding is_cancelled set_execution_status future_impl accepts_value
accepted =
    and_then (and_then (and_then (and_then made_first begins) (proceeds refl)) returns)
      (accepts refl)

stored : Story
unfolding accepted
stored = and_then (and_then accepted stores) marks

cancel_answer_example :
    ((stored.call.point ≡ over)
      × (cancel stored.call.future ≡ (stored.call.future, answered false)))
    ⊎ ((stored.call.point ≡ ending)
        × ((cancel stored.call.future).1 ≡ answered true)
        × (is_cancelled (cancel stored.call.future).0 ≡ true)
        × (ready (cancel stored.call.future).0 ≡ true))
unfolding ready store_ready stored
cancel_answer_example = cancel_answer 42 stored.reach refl

-- A client that cancels while set_value is past its test is told true, and the future becomes ready all
-- the same.
raced : Story
unfolding cancel_access future_impl store_result set_execution_status accepted
raced =
    and_then
      (and_then
        (and_then (and_then (and_then accepted asks_cancel) (cancels 0 asked refl))
          (cancels 0 deciding refl))
        stores)
      marks

raced_result :
    (raced.call.cancellers ≡ answered true ∷ [])
    × (is_cancelled raced.call.future ≡ true)
    × (ready raced.call.future ≡ true)
    × (raced.call.future.result ≡ 42)
unfolding cancel_access future_impl set_execution_status is_cancelled ready store_result store_ready
    raced
raced_result = (refl, refl, refl, refl)

-- A client that cancels when the task has just begun.
cancelled : Story
unfolding cancel_access future_impl set_execution_status
cancelled =
    and_then (and_then (and_then (and_then made_first begins) asks_cancel) (cancels 0 asked refl))
      (cancels 0 deciding refl)

cancel_for_good_example :
    let d = set_execution_status false cancelled.call.future in
    (is_cancelled d ≡ true) × (ready d ≡ false) × (must_wait d ≡ true)
unfolding ready set_execution_status future_impl is_cancelled cancel_access cancelled
cancel_for_good_example =
    cancel_for_good 42 0 cancelled.reach refl refl refl (next (next here (skips refl)) ends)
