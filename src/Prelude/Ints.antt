-- ===== src/Prelude/Ints.antt =====
-- `int`: 32 bits, its increment as `std::atomic<int>` has it, its order, and its conversions to a
-- count of rounds and to `size_t`.
use Prim.Native.Nat.{ℕ, zero, suc, ◌+◌, ◌-◌, ◌^◌, ◌<◌}
use mathlib.Core.Path.{◌≡◌}
use mathlib.Core.Bool.{Bool, true, false}
use native.Mathlib.Omega.{arith}
use color.Prelude.Tests.{ltb, ◌==◌, if◌then◌else◌}
use color.Prelude.Words.{u64_mod}

-- `int`; `negsuc n` is -(n + 1).
pub data ℤ : Type 0 where
  pos : ℕ → ℤ
  negsuc : ℕ → ℤ

-- An `int` as the bound of a loop that counts up from zero.
unfoldable pub rounds : ℤ → ℕ
rounds (pos n) = n
rounds (negsuc n) = 0

-- `size_t` of an `int`.
unfoldable pub to_size : ℤ → ℕ
to_size (pos n) = n
to_size (negsuc n) = u64_mod - suc n

-- 2^31, the first number above `INT_MAX`.
abbrev pub int_end : ℕ
int_end = 2 ^ 31

-- One more, around from `INT_MAX` to `INT_MIN`.
unfoldable pub inc_int : ℤ → ℤ
inc_int (pos n) = if n + 1 == int_end then negsuc n else pos (n + 1)
inc_int (negsuc zero) = pos 0
inc_int (negsuc (suc n)) = negsuc n

unfoldable pub lt_int : ℤ → ℤ → Bool
lt_int (pos a) (pos b) = ltb a b
lt_int (pos a) (negsuc b) = false
lt_int (negsuc a) (pos b) = true
lt_int (negsuc a) (negsuc b) = ltb b a

pub inc_int-pos : (n : ℕ) → n + 1 < int_end → inc_int (pos n) ≡ pos (n + 1)
unfolding inc_int
inc_int-pos n h = ground arith
