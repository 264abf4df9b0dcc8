-- ===== src/Common/Words.antt =====
-- `size_t` of a 64-bit platform, with its wrap-around.
use Prim.Native.Nat.{ℕ, ◌+◌, ◌-◌, ◌%◌, ◌^◌, ◌<◌}
use mathlib.Core.Path.{◌≡◌}
use native.Mathlib.Omega.{arith}

abbrev pub size_mod : ℕ
size_mod = 2 ^ 64

-- `n++` and `n--` on a `size_t`
abbrev pub inc : ℕ → ℕ
inc n = (n + 1) % size_mod

abbrev pub dec : ℕ → ℕ
dec n = (n + size_mod - 1) % size_mod

pub inc_below : (n m : ℕ) → n < m → m < size_mod → inc n ≡ n + 1
inc_below n m h k = omega arith

pub dec_pos : (n : ℕ) → 0 < n → n < size_mod → dec n + 1 ≡ n
dec_pos n h k = omega arith
