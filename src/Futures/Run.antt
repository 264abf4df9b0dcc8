-- ===== src/Futures/Run.antt =====
-- future_impl_task_func, access by access, with clients that cancel at any time.
use boost_threadpool.Common.{ℕ, ◌≡◌, Bool, true, false, some, List, [], ◌∷◌, ◌++◌, get_elem?, set}
use boost_threadpool.Futures.Impl.{
  FutureImpl, Canceller, asked, future_impl, accepts_value, store_result, store_ready,
  cancel_access, is_cancelled, set_execution_status,
}

-- The point that operator() has reached, in the thread that executes it.
pub data Point (Result : Type 0) : Type 0 where
  pending : Point Result  -- not called yet, or scheduled in vain
  started : Point Result  -- before is_cancelled
  calling : Point Result  -- before and in m_function()
  storing : (value : Result) → Point Result  -- before the test of set_value
  writing : (value : Result) → Point Result  -- in set_value, before the write of m_result
  marking : Point Result  -- in set_value, before the write of m_ready
  ending : Point Result  -- before set_execution_status(false)
  over : Point Result
  thrown : Point Result  -- m_function has thrown

-- The task is in set_value, past its test: it has m_monitor, for which the loops of the clients wait.
abbrev pub owns_monitor : {Result : Type 0} → Point Result → Bool
owns_monitor pending = false
owns_monitor started = false
owns_monitor calling = false
owns_monitor (storing r) = false
owns_monitor (writing r) = true
owns_monitor marking = true
owns_monitor ending = false
owns_monitor over = false
owns_monitor thrown = false

-- The task, its future, and the clients that have called `cancel`.
pub record Call (Result : Type 0) : Type 0 where
  pub point : Point Result
  pub future : FutureImpl Result
  pub cancellers : List Canceller

-- `value` is what the function returns, if it returns. The write of m_ready and the notification after it
-- are one step: what may come between them, an access of `cancel`, does not depend on the notification.
pub data Step {Result : Type 0} (value : Result) (f : FutureImpl Result) (cs : List Canceller)
    : Point Result → Call Result → Type 0 where
  begins :
      Step value f cs pending
        (record { point = started; future = set_execution_status true f; cancellers = cs })
  -- an empty m_function
  passes : Step value f cs pending (record { point = over; future = f; cancellers = cs })
  proceeds :
      is_cancelled f ≡ false
      → Step value f cs started (record { point = calling; future = f; cancellers = cs })
  skips :
      is_cancelled f ≡ true
      → Step value f cs started (record { point = ending; future = f; cancellers = cs })
  returns : Step value f cs calling (record { point = storing value; future = f; cancellers = cs })
  throws : Step value f cs calling (record { point = thrown; future = f; cancellers = cs })
  accepts :
      {r : Result}
      → accepts_value f ≡ true
      → Step value f cs (storing r) (record { point = writing r; future = f; cancellers = cs })
  drops :
      {r : Result}
      → accepts_value f ≡ false
      → Step value f cs (storing r) (record { point = ending; future = f; cancellers = cs })
  stores :
      {r : Result}
      → Step value f cs
          (writing r)
          (record { point = marking; future = store_result r f; cancellers = cs })
  marks :
      Step value f cs marking (record { point = ending; future = store_ready f; cancellers = cs })
  ends :
      Step value f cs ending
        (record { point = over; future = set_execution_status false f; cancellers = cs })
  asks_cancel :
      {p : Point Result}
      → Step value f cs p (record { point = p; future = f; cancellers = cs ++ asked ∷ [] })
  cancels :
      {p : Point Result} (i : ℕ) (k : Canceller)
      → get_elem? cs i ≡ some k
      → Step value f cs p (record {
        point = p;
        future = (cancel_access f k).0;
        cancellers = set cs i (cancel_access f k).1;
      })

pub data Reach {Result : Type 0} (value junk : Result) (executing : Bool)
    : Call Result → Type 0 where
  made :
      Reach value junk executing
        (record { point = pending; future = future_impl junk executing; cancellers = [] })
  then_step :
      {c d : Call Result}
      → Reach value junk executing c
      → Step value c.future c.cancellers c.point d
      → Reach value junk executing d

-- What may follow a state.
pub data Runs {Result : Type 0} (value : Result) (c : Call Result) : Call Result → Type 0 where
  here : Runs value c c
  next :
      {d e : Call Result}
      → Runs value c d
      → Step value d.future d.cancellers d.point e
      → Runs value c e
