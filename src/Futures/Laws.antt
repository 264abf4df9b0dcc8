-- ===== src/Futures/Laws.antt =====
-- What a client may rely on: the value of a future, and the effect of a cancellation.
use boost_threadpool.Common.{◌≡◌, refl, ◌⊎◌, Bool, true, false, arith, inl, inr, List}
use boost_threadpool.Futures.Impl.{
  FutureImpl, Canceller, asked, saw_ready, deciding, answered, future_impl, ready, store_result,
  store_ready, cancel_access, cancel, is_cancelled, set_execution_status,
}
use boost_threadpool.Futures.Run.{
  Point, pending, started, calling, storing, writing, marking, ending, over, thrown, Call, Step,
  begins, passes, proceeds, skips, returns, throws, accepts, drops, stores, marks, ends,
  asks_cancel, cancels, Reach, made, then_step, Runs, here, next,
}

module _ {Result : Type 0} (value : Result) where
  -- What holds of the future when the task stands at a point.
  abbrev At : Point Result → FutureImpl Result → Type 0
  At pending f = f.is_ready ≡ false
  At started f = (f.executing ≡ true) × (f.is_ready ≡ false)
  At calling f = (f.executing ≡ true) × (f.is_ready ≡ false)
  At (storing r) f = (f.executing ≡ true) × (f.is_ready ≡ false) × (r ≡ value)
  At (writing r) f = (f.executing ≡ true) × (f.is_ready ≡ false) × (r ≡ value)
  At marking f = (f.executing ≡ true) × (f.is_ready ≡ false) × (f.result ≡ value)
  At ending f = (f.executing ≡ true) × (f.is_ready ≡ true → f.result ≡ value)
  At over f = (f.is_ready ≡ true → f.executing ≡ false) × (f.is_ready ≡ true → f.result ≡ value)
  At thrown f = (f.executing ≡ true) × (f.is_ready ≡ false)

  -- No access of a client that cancels writes m_ready, m_result or m_executing.
  access-At :
      (p : Point Result) (f : FutureImpl Result) (k : Canceller)
      → At p f
      → At p (cancel_access f k).0
  unfolding cancel_access
  access-At p f asked v = v
  access-At p f saw_ready v = v
  access-At p f (answered b) v = v
  access-At pending f deciding v = v
  access-At started f deciding v = v
  access-At calling f deciding v = v
  access-At (storing r) f deciding v = v
  access-At (writing r) f deciding v = v
  access-At marking f deciding v = v
  access-At ending f deciding v = v
  access-At over f deciding v = v
  access-At thrown f deciding v = v

  Step-At :
      {p : Point Result} {f : FutureImpl Result} {cs : List Canceller} {d : Call Result}
      → Step value f cs p d
      → At p f
      → At d.point d.future
  unfolding store_result store_ready set_execution_status
  Step-At begins v = ground arith
  Step-At {f} passes v = (λ e. absurd (cc), λ e. absurd (cc))
  Step-At (proceeds h) v = v
  Step-At (skips h) v = ground arith
  Step-At returns v = ground arith
  Step-At throws v = v
  Step-At (accepts h) v = v
  Step-At (drops h) v = ground arith
  Step-At stores v = ground arith
  Step-At marks v = ground arith
  Step-At ends v = ground arith
  Step-At asks_cancel v = v
  Step-At {p} {f} (cancels i k h) v = access-At p f k v

  Reach-At :
      {junk : Result} {executing : Bool} {c : Call Result}
      → Reach value junk executing c
      → At c.point c.future
  unfolding future_impl
  Reach-At made = refl
  Reach-At (then_step r st) = Step-At st (Reach-At r)

  value-At :
      (p : Point Result) (f : FutureImpl Result) → At p f → f.is_ready ≡ true → f.result ≡ value
  value-At ending f v h = v.1 h
  value-At over f v h = v.1 h
  value-At pending f v h = absurd (cc)
  value-At started f v h = absurd (cc)
  value-At calling f v h = absurd (cc)
  value-At (storing r) f v h = absurd (cc)
  value-At (writing r) f v h = absurd (cc)
  value-At marking f v h = absurd (cc)
  value-At thrown f v h = absurd (cc)

  answer :
      (p : Point Result) (f : FutureImpl Result)
      → At p f
      → f.is_ready ≡ true
      → ((p ≡ over) × (cancel f ≡ (f, answered false)))
        ⊎ ((p ≡ ending)
            × ((cancel f).1 ≡ answered true)
            × (is_cancelled (cancel f).0 ≡ true)
            × (ready (cancel f).0 ≡ true))
  unfolding cancel cancel_access is_cancelled ready
  answer pending f v h = absurd (cc)
  answer started f v h = absurd (cc)
  answer calling f v h = absurd (cc)
  answer (storing r) f v h = absurd (cc)
  answer (writing r) f v h = absurd (cc)
  answer marking f v h = absurd (cc)
  answer ending f v h = inr (refl, ground arith, ground arith, ground arith)
  answer over f v h = inl (refl, ground arith)
  answer thrown f v h = absurd (cc)

  Reach-Runs :
      {junk : Result} {executing : Bool} {c d : Call Result}
      → Reach value junk executing c
      → Runs value c d
      → Reach value junk executing d
  Reach-Runs r here = r
  Reach-Runs r (next rs st) = then_step (Reach-Runs r rs) st

  access-ready :
      (f : FutureImpl Result) (k : Canceller)
      → f.is_ready ≡ true
      → (cancel_access f k).0.is_ready ≡ true
  unfolding cancel_access
  access-ready f asked h = h
  access-ready f saw_ready h = h
  access-ready f deciding h = h
  access-ready f (answered b) h = h

  Step-ready :
      {p : Point Result} {f : FutureImpl Result} {cs : List Canceller} {d : Call Result}
      → Step value f cs p d
      → f.is_ready ≡ true
      → d.future.is_ready ≡ true
  unfolding store_result store_ready set_execution_status
  Step-ready begins h = h
  Step-ready passes h = h
  Step-ready (proceeds k) h = h
  Step-ready (skips k) h = h
  Step-ready returns h = h
  Step-ready throws h = h
  Step-ready (accepts k) h = h
  Step-ready (drops k) h = h
  Step-ready stores h = h
  Step-ready marks h = refl
  Step-ready ends h = h
  Step-ready asks_cancel h = h
  Step-ready {f} (cancels i k _) h = access-ready f k h

  Runs-ready :
      {c d : Call Result} → Runs value c d → c.future.is_ready ≡ true → d.future.is_ready ≡ true
  Runs-ready here h = h
  Runs-ready (next rs st) h = Step-ready st (Runs-ready rs h)

  -- A future that is ready stays ready for good, and holds what the function returned, whatever the
  -- constructor found in its members, and whenever it was cancelled.
  pub ready_value :
      {junk : Result} {executing : Bool} {c d : Call Result}
      → Reach value junk executing c
      → ready c.future ≡ true
      → Runs value c d
      → (ready d.future ≡ true) × (d.future.result ≡ value)
  unfolding ready
  ready_value {d} r h rs =
      let k = Runs-ready rs h in (k, value-At d.point d.future (Reach-At (Reach-Runs r rs)) k)

  -- In every state that a ready future reaches: when the task is over, a `cancel` that no other access
  -- interrupts refuses and changes nothing; otherwise the task is between storing the value and its end,
  -- and such a `cancel` succeeds and marks as cancelled a future that stays ready.
  pub cancel_answer :
      {junk : Result} {executing : Bool} {c : Call Result}
      → Reach value junk executing c
      → ready c.future ≡ true
      → ((c.point ≡ over) × (cancel c.future ≡ (c.future, answered false)))
        ⊎ ((c.point ≡ ending)
            × ((cancel c.future).1 ≡ answered true)
            × (is_cancelled (cancel c.future).0 ≡ true)
            × (ready (cancel c.future).0 ≡ true))
  unfolding ready
  cancel_answer {c} r h = answer c.point c.future (Reach-At r) h
