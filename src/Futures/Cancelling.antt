-- ===== src/Futures/Cancelling.antt =====
-- What a client may rely on whose `cancel` has returned true.
use boost_threadpool.Common.{
  ℕ, ◌≡◌, ◌∙◌, refl, Bool, true, false, arith, inl, inr, some, List, [], ◌∷◌, get_elem?, All,
  Bool-cases, All-append, All-set, All-get, All-map,
}
use boost_threadpool.Futures.Impl.{
  FutureImpl, Canceller, asked, saw_ready, deciding, answered, ready, accepts_value, store_result,
  store_ready, cancel_access, is_cancelled, set_execution_status, must_wait,
}
use boost_threadpool.Futures.Run.{
  Point, Call, Step, owns_monitor, begins, passes, proceeds, skips, returns, throws, accepts, drops,
  stores, marks, ends, asks_cancel, cancels, Reach, made, then_step, Runs, here, next,
}

-- A client has been told `true` only when the future was cancelled.
abbrev Told : Bool → Canceller → Type 0
Told b asked = Unit
Told b saw_ready = Unit
Told b deciding = Unit
Told b (answered true) = b ≡ true
Told b (answered false) = Unit

still-Told : (b c : Bool) → (b ≡ true → c ≡ true) → (k : Canceller) → Told b k → Told c k
still-Told b c h asked t = tt
still-Told b c h saw_ready t = tt
still-Told b c h deciding t = tt
still-Told b c h (answered true) t = h t
still-Told b c h (answered false) t = tt

module _ {Result : Type 0} where
  access-Told :
      (f : FutureImpl Result) (k : Canceller)
      → Told f.cancelled k
      → Told (cancel_access f k).0.cancelled (cancel_access f k).1
  unfolding cancel_access
  access-Told f asked t = elim (Bool-cases f.is_ready) [ inl e ↦ rw e tt | inr e ↦ rw e tt ]
  access-Told f saw_ready t = elim (Bool-cases f.executing) [ inl e ↦ rw e tt | inr e ↦ rw e tt ]
  access-Told f deciding t = refl
  access-Told f (answered b) t = t

  access-cancelled :
      (f : FutureImpl Result) (k : Canceller)
      → f.cancelled ≡ true
      → (cancel_access f k).0.cancelled ≡ true
  unfolding cancel_access
  access-cancelled f asked h = h
  access-cancelled f saw_ready h = h
  access-cancelled f deciding h = refl
  access-cancelled f (answered b) h = h

  pub access-is_ready :
      (f : FutureImpl Result) (k : Canceller) → (cancel_access f k).0.is_ready ≡ f.is_ready
  unfolding cancel_access
  access-is_ready f asked = refl
  access-is_ready f saw_ready = refl
  access-is_ready f deciding = refl
  access-is_ready f (answered b) = refl

module _ {Result : Type 0} (value : Result) where
  Step-Told :
      {p : Point Result} {f : FutureImpl Result} {cs : List Canceller} {d : Call Result}
      → Step value f cs p d
      → All (Told f.cancelled) cs
      → All (Told d.future.cancelled) d.cancellers
  unfolding store_result store_ready set_execution_status
  Step-Told begins t = t
  Step-Told passes t = t
  Step-Told (proceeds k) t = t
  Step-Told (skips k) t = t
  Step-Told returns t = t
  Step-Told throws t = t
  Step-Told (accepts k) t = t
  Step-Told (drops k) t = t
  Step-Told stores t = t
  Step-Told marks t = t
  Step-Told ends t = t
  Step-Told {f} {cs} asks_cancel t = All-append (Told f.cancelled) cs (asked ∷ []) t (tt, tt)
  Step-Told {f} {cs} (cancels i k h) t =
      let after = (cancel_access f k).0.cancelled in
      All-set (Told after) cs i (cancel_access f k).1
        (All-map (Told f.cancelled) (Told after)
          (still-Told f.cancelled after (access-cancelled f k)) cs t)
        (access-Told f k (All-get (Told f.cancelled) cs i k t h))

  Reach-Told :
      {junk : Result} {executing : Bool} {c : Call Result}
      → Reach value junk executing c
      → All (Told c.future.cancelled) c.cancellers
  Reach-Told made = tt
  Reach-Told (then_step r st) = Step-Told st (Reach-Told r)

  -- The task has not passed the test of set_value, and never will.
  abbrev Sealed : Point Result → FutureImpl Result → Type 0
  Sealed p f = (f.cancelled ≡ true) × (f.is_ready ≡ false) × (owns_monitor p ≡ false)

  Step-Sealed :
      {p : Point Result} {f : FutureImpl Result} {cs : List Canceller} {d : Call Result}
      → Step value f cs p d
      → Sealed p f
      → Sealed d.point d.future
  unfolding set_execution_status accepts_value
  Step-Sealed begins h = h
  Step-Sealed passes h = h
  Step-Sealed (proceeds k) h = h
  Step-Sealed (skips k) h = h
  Step-Sealed returns h = h
  Step-Sealed throws h = h
  Step-Sealed (accepts k) h = absurd (ground arith)
  Step-Sealed (drops k) h = h
  Step-Sealed stores (_, _, h) = absurd (cc)
  Step-Sealed marks (_, _, h) = absurd (cc)
  Step-Sealed ends h = h
  Step-Sealed asks_cancel h = h
  Step-Sealed {f} (cancels i k _) (c, r, h) = (access-cancelled f k c, access-is_ready f k ∙ r, h)

  Runs-Sealed :
      {c d : Call Result} → Runs value c d → Sealed c.point c.future → Sealed d.point d.future
  Runs-Sealed here h = h
  Runs-Sealed (next rs st) h = Step-Sealed st (Runs-Sealed rs h)

  -- When `cancel` has returned true to a client, the future is not ready, and the task is not inside
  -- set_value, past its test: from then on the future is cancelled and never becomes ready, whatever the task
  -- and the other clients do. A `wait` for it never returns.
  pub cancel_for_good :
      {junk : Result} {executing : Bool} {c d : Call Result} (i : ℕ)
      → Reach value junk executing c
      → get_elem? c.cancellers i ≡ some (answered true)
      → ready c.future ≡ false
      → owns_monitor c.point ≡ false
      → Runs value c d
      → (is_cancelled d.future ≡ true) × (ready d.future ≡ false) × (must_wait d.future ≡ true)
  unfolding is_cancelled ready must_wait
  cancel_for_good {c} i r told h k rs =
      let is =
        All-get (Told c.future.cancelled) c.cancellers i (answered true) (Reach-Told r) told in
      let (out, waits, _) = Runs-Sealed rs (is, h, k) in (out, waits, rw waits refl)
