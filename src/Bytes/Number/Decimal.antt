-- ===== src/Bytes/Number/Decimal.antt =====
-- src/bytes.c: `btoi64` reads a decimal number. The value of the text is a number with no bound,
-- so the theorems say for which texts the arithmetic of `btoi64` stays inside `int64_t`.
use sleepytext.Prelude.{
  ℕ, zero, suc, ◌+◌, ◌-◌, ◌*◌, ◌≤◌, ◌<◌, ◌≡◌, refl, Bool, true, false, Option, none, some, List, [],
  ◌∷◌, ◌++◌, inl, inr, leb, ◌==◌, if◌then◌else◌, length, Bool-cases, arith,
}
use sleepytext.Prelude.Int.{pos, neg}
use sleepytext.Prelude.Words.{int_max, int64_max, to_int_small}
use sleepytext.Memory.{Mem, ◌+p◌, ok, fault, inc_int}
use sleepytext.Memory.Holds.{Holds, nil, cons, Holds-load, Holds-tail, +p-+p, +p_zero}
use sleepytext.Bytes.{Bytes}
use sleepytext.Bytes.Views.{Views}
use sleepytext.Bytes.Number.{not_digit, btoi64_loop, has_sign, btoi64, btoi}

abbrev pub digit_step : ℕ → ℕ → ℕ
digit_step acc c = acc * 10 + (c - b'0')

-- The number that a text of digits stands for behind the digits of `acc`; nothing if it holds
-- another byte.
unfoldable pub decimal : ℕ → List ℕ → Option ℕ
decimal acc [] = some acc
decimal acc (c ∷ cs) =
    let rest = decimal (digit_step acc c) cs in if not_digit c then none else rest

decimal-le : (acc v : ℕ) (xs : List ℕ) → decimal acc xs ≡ some v → acc ≤ v
unfolding decimal
decimal-le acc v [] h = ground arith
decimal-le acc v (c ∷ cs) h = ground (arith, decimal-le (digit_step acc c) v cs)

module _ {m : Mem} (b : Bytes) where
  loop-decimal :
      (n i acc v : ℕ) {xs : List ℕ}
      → Holds m (b.ptr +p i) xs
      → n ≡ length xs
      → i + length xs ≤ int_max
      → decimal acc xs ≡ some v
      → v ≤ int64_max
      → btoi64_loop n b i acc m ≡ ok (some v) m
  unfolding btoi64_loop decimal inc_int
  loop-decimal zero i acc v nil e le d fits = ground arith
  loop-decimal zero i acc v (cons p h) e le d fits = absurd (omega arith)
  loop-decimal (suc n) i acc v nil e le d fits = absurd (omega arith)
  loop-decimal (suc n) i acc v (cons {x} {xs} p h) e le d fits =
      let rest = loop-decimal n (i + 1) (digit_step acc x) v (rw (+p-+p b.ptr i 1) at h) in
      ground (arith, Holds-load (cons p h), decimal-le (digit_step acc x) v xs, rest)

  loop-overflow :
      (n i acc v : ℕ) {xs : List ℕ}
      → Holds m (b.ptr +p i) xs
      → n ≡ length xs
      → i + length xs ≤ int_max
      → decimal acc xs ≡ some v
      → acc ≤ int64_max
      → int64_max < v
      → btoi64_loop n b i acc m ≡ fault
  unfolding btoi64_loop decimal inc_int
  loop-overflow zero i acc v nil e le d small big = absurd (ground arith)
  loop-overflow zero i acc v (cons p h) e le d small big = absurd (omega arith)
  loop-overflow (suc n) i acc v nil e le d small big = absurd (omega arith)
  loop-overflow (suc n) i acc v (cons {x} {xs} p h) e le d small big =
      let rest = loop-overflow n (i + 1) (digit_step acc x) v (rw (+p-+p b.ptr i 1) at h) in
      ground (arith, Holds-load (cons p h), rest)

  loop_stops :
      (n i acc v c : ℕ) (ds rest : List ℕ)
      → Holds m (b.ptr +p i) (ds ++ c ∷ rest)
      → n ≡ length (ds ++ c ∷ rest)
      → i + length (ds ++ c ∷ rest) ≤ int_max
      → decimal acc ds ≡ some v
      → v * 10 ≤ int64_max
      → not_digit c ≡ true
      → btoi64_loop n b i acc m ≡ ok none m
  unfolding btoi64_loop decimal inc_int
  loop_stops zero i acc v c [] rest h e le d fits bad = absurd (omega arith)
  loop_stops (suc n) i acc v c [] rest h e le d fits bad = ground (arith, Holds-load h)
  loop_stops zero i acc v c (x ∷ ds) rest h e le d fits bad = absurd (omega arith)
  loop_stops (suc n) i acc v c (x ∷ ds) rest h e le d fits bad =
      let next =
        loop_stops n (i + 1) (digit_step acc x) v c ds rest
          (rw (+p-+p b.ptr i 1) at (Holds-tail h)) in
      ground (arith, Holds-load h, decimal-le (digit_step acc x) v ds, next)

abbrev pub starts_with_sign : List ℕ → Bool
starts_with_sign [] = false
starts_with_sign (x ∷ xs) = x == b'-'

has_sign_lem :
    {m : Mem} {b : Bytes} (xs : List ℕ) → Views m b xs → has_sign b m ≡ ok (starts_with_sign xs) m
unfolding has_sign
has_sign_lem [] v = ground (arith, v.len_is)
has_sign_lem (x ∷ xs) v = ground (arith, v.len_is, Holds-load v.holds)

decimal_unsigned : (xs : List ℕ) (acc v : ℕ) → decimal acc xs ≡ some v → starts_with_sign xs ≡ false
unfolding decimal
decimal_unsigned [] acc v h = refl
decimal_unsigned (x ∷ xs) acc v h = ground arith

module _ {m : Mem} {b : Bytes} where
  -- On a text of digits, of at most 2^31 - 1 bytes, `btoi64` returns the number that it stands for
  -- if that fits in `int64_t`; if not, its arithmetic overflows, which is undefined in C.
  pub btoi64-decimal :
      {xs : List ℕ} {v : ℕ}
      → Views m b xs
      → length xs ≤ int_max
      → decimal 0 xs ≡ some v
      → btoi64 b m ≡ (if leb v int64_max then ok (pos v) m else fault)
  unfolding btoi64
  btoi64-decimal {xs} {v} w le d =
      let h = rw (← +p_zero b.ptr) at w.holds in
      rw (has_sign_lem xs w, decimal_unsigned xs 0 v d)
        (elim (Bool-cases (leb v int64_max)) [
          | inl fits ↦
              rw
                (
                  fits,
                  loop-decimal b (b.len - 0) 0 0 v h (omega (arith, w.len_is)) (omega arith) d
                      (ground arith),
                )
                refl
          | inr big ↦
              rw
                (
                  big,
                  loop-overflow b (b.len - 0) 0 0 v h (omega (arith, w.len_is)) (omega arith) d
                      (omega arith) (ground arith),
                )
                refl
        ])

  -- Behind a minus sign `btoi64` returns the negated number, if it is at most 2^63 - 1.
  pub btoi64_negative :
      {xs : List ℕ} {v : ℕ}
      → Views m b (b'-' ∷ xs)
      → suc (length xs) ≤ int_max
      → decimal 0 xs ≡ some v
      → v ≤ int64_max
      → btoi64 b m ≡ ok (neg v) m
  unfolding btoi64
  btoi64_negative {xs} {v} w le d fits =
      rw
        (
          has_sign_lem (b'-' ∷ xs) w,
          loop-decimal b (b.len - 1) 1 0 v (Holds-tail w.holds) (omega (arith, w.len_is))
              (omega arith) d fits,
        )
        refl

  -- A byte that is no digit behind digits (or at the start, if it is not a minus sign) makes
  -- `btoi64` return 0, whatever stands behind it, if ten times the number before it fits.
  pub btoi64_garbage :
      (c : ℕ) (ds rest : List ℕ) {v : ℕ}
      → Views m b (ds ++ c ∷ rest)
      → length (ds ++ c ∷ rest) ≤ int_max
      → decimal 0 ds ≡ some v
      → v * 10 ≤ int64_max
      → not_digit c ≡ true
      → starts_with_sign (ds ++ c ∷ rest) ≡ false
      → btoi64 b m ≡ ok (pos 0) m
  unfolding btoi64
  btoi64_garbage c ds rest {v} w le d fits bad unsigned =
      let h = rw (← +p_zero b.ptr) at w.holds in
      rw
        (
          has_sign_lem _ w,
          unsigned,
          loop_stops b (b.len - 0) 0 0 v c ds rest h (omega (arith, w.len_is)) (omega arith) d fits
              bad,
        )
        refl

  -- `btoi` returns the number that a text of digits stands for, if it fits in `int`.
  pub btoi-decimal :
      {xs : List ℕ} {v : ℕ}
      → Views m b xs
      → length xs ≤ int_max
      → decimal 0 xs ≡ some v
      → v ≤ int_max
      → btoi b m ≡ ok (pos v) m
  unfolding btoi
  btoi-decimal {xs} {v} w le d fits =
      let small : leb v int64_max ≡ true = ground arith in
      rw (btoi64-decimal w le d, small, to_int_small v fits) refl
