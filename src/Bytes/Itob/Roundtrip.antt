-- ===== src/Bytes/Itob/Roundtrip.antt =====
-- src/bytes.c: `itob` prints a number in decimal, and `btoi64` reads it back.
use sleepytext.Prelude.{ℕ, List, [], ◌∷◌, ◌==◌, if◌then◌else◌}
use sleepytext.Bytes.{Bytes}
use sleepytext.Bytes.Itob.Digits.{low_digits}
use sleepytext.Bytes.Itob.Turned.{reverse}

-- The decimal digits of an `int` that is not negative, the highest first.
abbrev pub digits : ℕ → List ℕ
digits n = if n == 0 then b'0' ∷ [] else reverse (low_digits 10 n)
