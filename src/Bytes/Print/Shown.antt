-- ===== src/Bytes/Print/Shown.antt =====
-- src/bytes.c: the length of a printed number, and that no NUL stands in it.
use sleepytext.Prelude.{ℕ, zero, suc, ◌+◌, ◌/◌, ◌%◌, ◌≤◌, List, [], ◌∷◌, length, arith}
use sleepytext.Prelude.Int.{ℤ, pos, negsuc}
use sleepytext.Bytes.Find.First.{Lacks}
use sleepytext.Bytes.Print.{show_digits, show_int}

show_digits-le : (fuel n : ℕ) (acc : List ℕ) → length (show_digits fuel n acc) ≤ fuel + length acc
unfolding show_digits
show_digits-le zero n acc = omega arith
show_digits-le (suc fuel) n acc =
    ground (arith, show_digits-le fuel (n / 10) ((b'0' + n % 10) ∷ acc))

show_digits-Lacks : (fuel n : ℕ) (acc : List ℕ) → Lacks 0 acc → Lacks 0 (show_digits fuel n acc)
unfolding show_digits
show_digits-Lacks zero n acc l = l
show_digits-Lacks (suc fuel) n acc l =
    ground (arith, show_digits-Lacks fuel (n / 10) ((b'0' + n % 10) ∷ acc))

pub show_int-le : (z : ℤ) → length (show_int z) ≤ 21
unfolding show_int
show_int-le (pos n) = omega (arith, show_digits-le 20 n [])
show_int-le (negsuc n) = omega (arith, show_digits-le 20 (n + 1) [])

pub show_int-Lacks : (z : ℤ) → Lacks 0 (show_int z)
unfolding show_int
show_int-Lacks (pos n) = show_digits-Lacks 20 n [] tt
show_int-Lacks (negsuc n) = (omega arith, show_digits-Lacks 20 (n + 1) [] tt)
