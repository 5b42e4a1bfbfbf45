-- ===== src/Bytes/Fresh.antt =====
-- src/bytes.c: `balloc` where there is room.
use sleepytext.Prelude.{ℕ, ◌+◌, ◌-◌, ◌≤◌, ◌≡◌, refl, false, some, ltb, arith}
use sleepytext.Memory.{Mem, ok, fill, malloc, update}
use sleepytext.Memory.Write.{at_heap}
use sleepytext.Bytes.{view, balloc}

-- The memory after `malloc(n)`.
abbrev pub allocated : ℕ → Mem → Mem
allocated n m = record m {
  next = m.next + 1;
  room = m.room - n;
  objects = update m.objects m.next (some (fill (m.garbage m.next) 0 n));
}

pub balloc-allocated :
    (n : ℕ) (m : Mem) → n ≤ m.room → balloc n m ≡ ok (view (at_heap m.next 0) n) (allocated n m)
unfolding balloc malloc
balloc-allocated n m room = let fits : ltb m.room n ≡ false = ground arith in rw fits refl

pub allocated_own :
    (n : ℕ) (m : Mem) → (allocated n m).objects m.next ≡ some (fill (m.garbage m.next) 0 n)
allocated_own n m = ground arith
