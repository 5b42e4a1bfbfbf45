-- ===== src/Prelude/Words.antt =====
-- The machine words of the C program: `size_t`, `int`, `int64_t` and `uint32_t` on x86-64.
use Prim.Native.Nat.{ℕ, ◌+◌, ◌-◌, ◌%◌, ◌^◌, ◌≤◌, ◌<◌}
use mathlib.Core.Path.{◌≡◌}
use native.Mathlib.Omega.{arith}
use sleepytext.Prelude.Tests.{ltb, if◌then◌else◌}
use sleepytext.Prelude.Int.{ℤ, pos, negsuc}

abbrev pub size_mod : ℕ
size_mod = 2 ^ 64

abbrev pub u32_mod : ℕ
u32_mod = 2 ^ 32

abbrev pub int_max : ℕ
int_max = 2 ^ 31 - 1

abbrev pub int64_max : ℕ
int64_max = 2 ^ 63 - 1

-- `a - b` and `a + b` on `size_t`, of operands below 2 ^ 64.
unfoldable pub sub64 : ℕ → ℕ → ℕ
sub64 a b = (a + size_mod - b) % size_mod

unfoldable pub add64 : ℕ → ℕ → ℕ
add64 a b = (a + b) % size_mod

pub sub64_exact : (a b : ℕ) → b ≤ a → a < 2 ^ 64 → sub64 a b ≡ a - b
unfolding sub64
sub64_exact a b h k = omega arith

-- An `int64_t` value converted to `int`: the value mod 2 ^ 32, read as a two's complement number.
abbrev pub signed32 : ℕ → ℤ
signed32 w = if ltb w (2 ^ 31) then pos w else negsuc (2 ^ 32 - w - 1)

unfoldable pub to_int : ℤ → ℤ
to_int (pos n) = signed32 (n % u32_mod)
to_int (negsuc n) = signed32 (u32_mod - 1 - n % u32_mod)

pub to_int_small : (n : ℕ) → n ≤ int_max → to_int (pos n) ≡ pos n
unfolding to_int
to_int_small n h = ground arith

pub add64_exact : (a b : ℕ) → a + b < 2 ^ 64 → add64 a b ≡ a + b
unfolding add64
add64_exact a b h = omega arith
