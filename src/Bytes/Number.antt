-- ===== src/Bytes/Number.antt =====
-- src/bytes.c: `btoi64` and `btoi`. An `int64_t` that is not negative is its value; a step whose
-- exact result does not fit in `int64_t` is a fault, as signed overflow is in C. A byte from 128 on
-- is a negative `char`, so it is no digit either.
pub mod Decimal
use sleepytext.Prelude.{
  ℕ, zero, suc, ◌+◌, ◌-◌, ◌*◌, Bool, true, false, ◌&&◌, ◌||◌, Option, none, some, ltb, ◌==◌,
  if◌then◌else◌,
}
use sleepytext.Prelude.Int.{ℤ, pos, neg}
use sleepytext.Prelude.Words.{int64_max, to_int}
use sleepytext.Memory.{◌+p◌, Action, pure, crash, ◌>>=◌, load, inc_int}
use sleepytext.Bytes.{Bytes}

-- `digit > 9 || digit < 0`
abbrev pub not_digit : ℕ → Bool
not_digit c = ltb b'9' c || ltb c b'0'

fits_int64 : ℕ → Action ℕ
fits_int64 n = if ltb int64_max n then crash else pure n

-- `n` is the number of rounds left, `b.len - i`; `none` is the early `return 0`.
btoi64_loop : ℕ → Bytes → ℕ → ℕ → Action (Option ℕ)
unfolding fits_int64
btoi64_loop zero b i acc = pure (some acc)
btoi64_loop (suc n) b i acc = do
  shifted ← fits_int64 (acc * 10)
  c ← load (b.ptr +p i)
  if not_digit c
      then pure none
      else (do acc' ← fits_int64 (shifted + (c - b'0')); i' ← inc_int i; btoi64_loop n b i' acc')

-- `b.len > 0 && b.as_char[0] == '-'`
has_sign : Bytes → Action Bool
has_sign b = if ltb 0 b.len then (do c ← load b.ptr; pure (c == b'-')) else pure false

finish_btoi64 : Bool → Option ℕ → ℤ
finish_btoi64 is_neg none = pos 0
finish_btoi64 true (some acc) = neg acc
finish_btoi64 false (some acc) = pos acc

unfoldable pub btoi64 : Bytes → Action ℤ
unfolding btoi64_loop has_sign finish_btoi64
btoi64 b = do
  is_neg ← has_sign b
  let i = if is_neg then 1 else 0
  acc ← btoi64_loop (b.len - i) b i 0
  pure (finish_btoi64 is_neg acc)

unfoldable pub btoi : Bytes → Action ℤ
btoi b = do n ← btoi64 b; pure (to_int n)
