-- ===== src/Prelude/Words.antt =====
-- 64-bit unsigned words (`uint64_t`, `size_t`) as native numbers with their wrap-around written out.
use Prim.Native.Nat.{ℕ, ◌+◌, ◌%◌, ◌^◌, ◌<◌}
use mathlib.Core.Path.{◌≡◌}
use native.Mathlib.Omega.{arith}

abbrev pub u64_mod : ℕ
u64_mod = 2 ^ 64

-- `x + y` and `x + 1` on `uint64_t`.
unfoldable pub add64 : ℕ → ℕ → ℕ
add64 x y = (x + y) % u64_mod

unfoldable pub inc64 : ℕ → ℕ
unfolding add64
inc64 x = add64 x 1

pub add64-eq : (x y : ℕ) → x + y < u64_mod → add64 x y ≡ x + y
unfolding add64
add64-eq x y h = omega arith

pub inc64-eq : (x : ℕ) → x + 1 < u64_mod → inc64 x ≡ x + 1
unfolding inc64
inc64-eq x h = omega arith
