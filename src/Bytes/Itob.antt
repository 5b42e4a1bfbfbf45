-- ===== src/Bytes/Itob.antt =====
-- src/bytes.c: `itob` writes the digits of a number, the lowest first, and turns them round in place.
pub mod Digits
pub mod Roundtrip
pub mod Turned
use sleepytext.Prelude.{ℕ, zero, suc, ◌+◌, ◌-◌, ◌/◌, ◌%◌, ltb, if◌then◌else◌}
use sleepytext.Prelude.Int.{ℤ, pos, negsuc, is_zero}
use sleepytext.Memory.{◌+p◌, Action, pure, ◌>>=◌, ◌>>◌, load, store, out_of_fuel}
use sleepytext.Bytes.{Bytes, view}

-- `while (number > 0)`
unfoldable pub itob_digits : ℕ → Bytes → ℕ → ℕ → Action ℕ
itob_digits zero buf number i = λ m. out_of_fuel
itob_digits (suc fuel) buf number i =
    if ltb 0 number
    then (do store (buf.ptr +p i) (number % 10 + b'0'); itob_digits fuel buf (number / 10) (i + 1))
    else pure i

-- `n` is the number of rounds left, `i / 2 - j`.
unfoldable pub turn_digits : ℕ → Bytes → ℕ → ℕ → Action (Unit {0})
turn_digits zero buf i j = pure tt
turn_digits (suc n) buf i j = do
  t ← load (buf.ptr +p j)
  u ← load (buf.ptr +p (i - j - 1))
  store (buf.ptr +p j) u
  store (buf.ptr +p (i - j - 1)) t
  turn_digits n buf i (j + 1)

-- The loop is not entered for a negative number.
abbrev pub positive_part : ℤ → ℕ
positive_part (pos n) = n
positive_part (negsuc n) = 0

-- An `int` has at most ten digits; the eleventh unit of fuel ends the loop.
unfoldable pub itob : Bytes → ℤ → Action Bytes
unfolding itob_digits turn_digits
itob buf number = if is_zero number then (do store buf.ptr b'0'; pure (view buf.ptr 1)) else (do
  i ← itob_digits 11 buf (positive_part number) 0
  turn_digits (i / 2) buf i 0
  pure (view buf.ptr i))
