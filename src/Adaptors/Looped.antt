-- ===== src/Adaptors/Looped.antt =====
-- looped_task_func: a function that is called again and again, with breaks, until it returns false.
use mathlib.Core.Option
use boost_threadpool.Common.{
  ℕ, zero, suc, ◌+◌, ◌-◌, ◌*◌, ◌/◌, ◌%◌, ◌^◌, ◌<◌, ◌≡◌, refl, ap, ◌∙◌, Bool, true, false, ◌||◌,
  Option, none, some, List, [], ◌∷◌, arith, ltb, ◌==◌, if◌then◌else◌, Bool-cases, inl, inr,
}

-- `unsigned int` arithmetic
abbrev u32 : ℕ → ℕ
u32 n = n % 2 ^ 32

abbrev sub_u32 : ℕ → ℕ → ℕ
sub_u32 a b = (a + 2 ^ 32 - b) % 2 ^ 32

-- boost::xtime
pub record XTime : Type 0 where
  pub sec : ℕ
  pub nsec : ℕ

pub record LoopedTask : Type 0 where
  pub is_set : Bool  -- whether m_function holds a function
  pub break_s : ℕ
  pub break_ns : ℕ

-- The constructor; `interval` is in milliseconds.
unfoldable pub looped_task_func : Bool → ℕ → LoopedTask
looped_task_func function interval =
    let break_s = interval / 1000 in
    record {
      is_set = function;
      break_s = break_s;
      break_ns = u32 (u32 (sub_u32 interval (u32 (break_s * 1000)) * 1000) * 1000);
    }

pub data Action : Type 0 where
  calls yields : Action
  sleeps_until : XTime → Action

unfoldable pub has_break : LoopedTask → Bool
has_break t = ltb 0 t.break_s || ltb 0 t.break_ns

unfoldable pub wake_time : LoopedTask → XTime → XTime
wake_time t now = record { sec = now.sec + t.break_s; nsec = now.nsec + t.break_ns }

-- Between two calls.
unfoldable pub pause : LoopedTask → XTime → Action
unfolding has_break wake_time
pause t now = if has_break t then sleeps_until (wake_time t now) else yields

-- `results i` is what call `i` of the function returns, `clock i` the time that xtime_get reads for the
-- `i`th time; `none` means that the fuel did not suffice.
unfoldable pub loop : LoopedTask → (ℕ → Bool) → (ℕ → XTime) → ℕ → ℕ → Option (List Action)
unfolding pause
loop t results clock zero i = none
loop t results clock (suc fuel) i =
    let later = loop t results clock fuel (suc i) in
    if results i
    then Option.map (λ rest. calls ∷ pause t (clock (suc i)) ∷ rest) later
    else some (calls ∷ [])

-- operator()
unfoldable pub run : LoopedTask → (ℕ → Bool) → (ℕ → XTime) → ℕ → Option (List Action)
unfolding loop has_break wake_time
run t results clock fuel =
    let looped = loop t results clock fuel 0 in
    if t.is_set
    then (if has_break t
        then Option.map (λ rest. sleeps_until (wake_time t (clock 0)) ∷ rest) looped
        else looped)
    else some []

-- The two parts of the break are the interval, with less than a second in the second part, and
-- nothing overflows; a time that is put off by them still fits an `int`, in the same nanosecond as
-- the interval says.
pub break_exact :
    (function : Bool) (interval : ℕ) (now : XTime)
    → interval < 2 ^ 32
    → now.nsec < 1000000000
    → let t = looped_task_func function interval in
      (t.break_s * 1000000000 + t.break_ns ≡ interval * 1000000)
      × (t.break_ns < 1000000000)
      × ((wake_time t now).nsec < 2 ^ 31)
      × ((wake_time t now).sec * 1000000000 + (wake_time t now).nsec
          ≡ now.sec * 1000000000 + now.nsec + interval * 1000000)
unfolding looped_task_func wake_time
break_exact function interval now h n = omega arith

-- The time that lies `interval` milliseconds after `now`.
abbrev pub delayed : (interval : ℕ) → XTime → XTime
delayed interval now = record {
  sec = now.sec + interval / 1000;
  nsec = now.nsec + interval % 1000 * 1000000;
}

-- `n` times: a sleep for the interval, from the `i`th reading of the clock on, and a call.
abbrev pub sleeping_rounds : (interval : ℕ) (clock : ℕ → XTime) (n i : ℕ) → List Action
sleeping_rounds interval clock zero i = []
sleeping_rounds interval clock (suc n) i =
    sleeps_until (delayed interval (clock i)) ∷ calls ∷ sleeping_rounds interval clock n (suc i)

-- `n` times a call and a yield, and a last call.
abbrev pub yielding_rounds : (n : ℕ) → List Action
yielding_rounds zero = calls ∷ []
yielding_rounds (suc n) = calls ∷ yields ∷ yielding_rounds n

-- What a looped task does whose function is called `n + 1` times.
abbrev pub rounds : (interval : ℕ) (clock : ℕ → XTime) (n : ℕ) → List Action
rounds interval clock n =
    if interval == 0 then yielding_rounds n else sleeping_rounds interval clock (suc n) 0

wake_time-delayed :
    (interval : ℕ) (now : XTime)
    → interval < 2 ^ 32
    → wake_time (looped_task_func true interval) now ≡ delayed interval now
unfolding wake_time looped_task_func
wake_time-delayed interval now h =
    ap (λ ns. record { sec = now.sec + interval / 1000; nsec = now.nsec + ns }) (omega arith)

is_set-looped : (interval : ℕ) → (looped_task_func true interval).is_set ≡ true
unfolding looped_task_func
is_set-looped interval = refl

has_break-none :
    (interval : ℕ) → (interval == 0) ≡ true → has_break (looped_task_func true interval) ≡ false
unfolding has_break looped_task_func
has_break-none interval e = ground arith

has_break-some :
    (interval : ℕ)
    → interval < 2 ^ 32
    → (interval == 0) ≡ false
    → has_break (looped_task_func true interval) ≡ true
unfolding has_break looped_task_func
has_break-some interval h e = ground arith

loop_sleeping :
    (interval : ℕ) (results : ℕ → Bool) (clock : ℕ → XTime) (k i last fuel : ℕ)
    → interval < 2 ^ 32
    → has_break (looped_task_func true interval) ≡ true
    → last ≡ i + k
    → ((j : ℕ) → j < last → results j ≡ true)
    → results last ≡ false
    → k < fuel
    → loop (looped_task_func true interval) results clock fuel i
      ≡ some (calls ∷ sleeping_rounds interval clock k (suc i))
unfolding loop pause
loop_sleeping interval results clock k i last zero n b e h z f = absurd (omega arith)
loop_sleeping interval results clock zero i last (suc fuel) n b e h z f =
    let s : results i ≡ false = ap results (omega arith) ∙ z in rw s refl
loop_sleeping interval results clock (suc k) i last (suc fuel) n b e h z f =
    let r =
      loop_sleeping interval results clock k (suc i) last fuel n b (omega arith) h z
        (omega arith) in
    rw (h i (omega arith), r, b, wake_time-delayed interval (clock (suc i)) n) refl

loop_yielding :
    (t : LoopedTask) (results : ℕ → Bool) (clock : ℕ → XTime) (k i last fuel : ℕ)
    → has_break t ≡ false
    → last ≡ i + k
    → ((j : ℕ) → j < last → results j ≡ true)
    → results last ≡ false
    → k < fuel
    → loop t results clock fuel i ≡ some (yielding_rounds k)
unfolding loop pause
loop_yielding t results clock k i last zero b e h z f = absurd (omega arith)
loop_yielding t results clock zero i last (suc fuel) b e h z f =
    let s : results i ≡ false = ap results (omega arith) ∙ z in rw s refl
loop_yielding t results clock (suc k) i last (suc fuel) b e h z f =
    let r = loop_yielding t results clock k (suc i) last fuel b (omega arith) h z (omega arith) in
    rw (h i (omega arith), r, b) refl

-- A looped task whose function returns false for the first time at its call number `last` ends, with enough
-- fuel, after just these actions: without an interval, it makes `last` calls, each followed by a yield, and
-- then the last call; and otherwise it sleeps before each of its `last + 1` calls, until the interval has
-- passed since the clock was read, and does nothing after the last call.
pub looped_run :
    (interval : ℕ) (results : ℕ → Bool) (clock : ℕ → XTime) (last fuel : ℕ)
    → interval < 2 ^ 32
    → ((j : ℕ) → j < last → results j ≡ true)
    → results last ≡ false
    → last < fuel
    → run (looped_task_func true interval) results clock fuel ≡ some (rounds interval clock last)
unfolding run
looped_run interval results clock last fuel n h z f = elim (Bool-cases (interval == 0)) [
  | inl e ↦
      rw (e, is_set-looped interval, has_break-none interval e)
        (loop_yielding (looped_task_func true interval) results clock last 0 last fuel
          (has_break-none interval e) (omega arith) h z f)
  | inr e ↦
      let b = has_break-some interval n e in
      rw
        (
          e,
          is_set-looped interval,
          b,
          loop_sleeping interval results clock last 0 last fuel n b (omega arith) h z f,
          wake_time-delayed interval (clock 0) n,
        )
        refl
]
