-- ===== src/Futures/Impl.antt =====
-- future_impl: its members, and its operations, access by access: set_value has m_monitor, but `cancel`
-- takes no lock, so that its accesses may stand between those of any other operation.
use boost_threadpool.Common.{Bool, true, false, not, ◌&&◌, if◌then◌else◌}

pub record FutureImpl (Result : Type 0) : Type 0 where
  pub is_ready : Bool
  pub result : Result
  pub cancelled : Bool
  pub executing : Bool

-- Where a client stands in `cancel`.
pub data Canceller : Type 0 where
  asked : Canceller  -- before the read of m_ready
  saw_ready : Canceller  -- before the read of m_executing
  deciding : Canceller  -- before the write of m_is_cancelled
  answered : Bool → Canceller  -- `cancel` has returned that

module _ {Result : Type 0} where
  -- The constructor leaves m_executing as it is, and m_result to the constructor of its type: both are
  -- arguments here.
  unfoldable pub future_impl : (result : Result) → (executing : Bool) → FutureImpl Result
  future_impl result executing = record {
    is_ready = false;
    result = result;
    cancelled = false;
    executing = executing;
  }

  unfoldable pub ready : FutureImpl Result → Bool
  ready f = f.is_ready

  -- The loops of `wait` and timed_wait sleep while this holds.
  unfoldable pub must_wait : FutureImpl Result → Bool
  must_wait f = not f.is_ready

  -- set_value has three parts: its test, the write of m_result, and that of m_ready. Only set_value writes
  -- m_ready, and the task calls it once, so the test depends on the moment at which it reads m_is_cancelled.
  unfoldable pub accepts_value : FutureImpl Result → Bool
  accepts_value f = not f.is_ready && not f.cancelled

  unfoldable pub store_result : Result → FutureImpl Result → FutureImpl Result
  store_result r f = record f { result = r }

  unfoldable pub store_ready : FutureImpl Result → FutureImpl Result
  store_ready f = record f { is_ready = true }

  -- The next access of a client in `cancel`: it reads m_ready, then m_executing if it has to, and writes
  -- m_is_cancelled last.
  unfoldable pub cancel_access : FutureImpl Result → Canceller → FutureImpl Result × Canceller
  cancel_access f asked = (f, if not f.is_ready then deciding else saw_ready)
  cancel_access f saw_ready = (f, if f.executing then deciding else answered false)
  cancel_access f deciding = (record f { cancelled = true }, answered true)
  cancel_access f (answered b) = (f, answered b)

  -- `cancel` when no access of another thread comes between its own.
  unfoldable pub cancel : FutureImpl Result → FutureImpl Result × Canceller
  unfolding cancel_access
  cancel f =
      let (f1, k1) = cancel_access f asked in
      let (f2, k2) = cancel_access f1 k1 in cancel_access f2 k2

  unfoldable pub is_cancelled : FutureImpl Result → Bool
  is_cancelled f = f.cancelled

  unfoldable pub set_execution_status : Bool → FutureImpl Result → FutureImpl Result
  set_execution_status executing f = record f { executing = executing }
