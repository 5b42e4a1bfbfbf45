-- ===== src/Bytes/Stored.antt =====
-- src/bytes.c: the objects that the program has on the heap, and what keeps them.
use sleepytext.Prelude.{ℕ, ◌+◌, ◌<◌, ◌≡◌, ◌≢◌, refl, sym, some, none, List, length, arith}
use mathlib.Core.Path.{subst}
use sleepytext.Memory.Holds.{Holds}
use sleepytext.Memory.Overwrite.{StandsAt, StandsAt-Holds}
use sleepytext.Bytes.Views.{Views}
use sleepytext.Memory.{Mem, ok, fill, free, update}
use sleepytext.Memory.Write.{at_heap, written, written_at, written_self}
use sleepytext.Bytes.{view, bvoid, bfree}
use sleepytext.Bytes.Fresh.{allocated, allocated_own}

-- Object `a` is not the next one and has these bytes.
pub record Stored (m : Mem) (a : ℕ) (bytes : List ℕ) : Type 0 where
  pub older : a < m.next
  pub holds : m.objects a ≡ some bytes

pub allocated-Stored :
    {m : Mem} {a : ℕ} {bytes : List ℕ} (n : ℕ) → Stored m a bytes → Stored (allocated n m) a bytes
allocated-Stored {m} {a} n s = record {
  older = omega (arith, s.older);
  holds = let other : a ≢ m.next = omega (arith, s.older) in ground (arith, s.holds);
}

pub fresh-Stored : (n : ℕ) (m : Mem) → Stored (allocated n m) m.next (fill (m.garbage m.next) 0 n)
fresh-Stored n m = record { older = omega arith; holds = allocated_own n m }

pub written-Stored :
    {m : Mem} {a : ℕ} {bytes : List ℕ} (b : ℕ) (cs : List ℕ)
    → a ≢ b
    → Stored m a bytes
    → Stored (written m b cs) a bytes
unfolding written
written-Stored b cs ne s = record { older = s.older; holds = ground (arith, s.holds) }

pub written_self-Stored :
    {m : Mem} {a : ℕ} {bytes : List ℕ} (cs : List ℕ)
    → Stored m a bytes
    → Stored (written m a cs) a cs
unfolding written
written_self-Stored {m} {a} cs s = record { older = s.older; holds = written_at m a cs }

-- The memory after `free` of object `a`, which has `n` bytes.
abbrev pub freed : ℕ → ℕ → Mem → Mem
freed a n m = record m { room = m.room + n; objects = update m.objects a none }

pub bfree-freed :
    (m : Mem) (a len : ℕ) (bytes : List ℕ)
    → Stored m a bytes
    → bfree (view (at_heap a 0) len) m ≡ ok bvoid (freed a (length bytes) m)
unfolding bfree free
bfree-freed m a len bytes st = rw st.holds refl

pub freed-Stored :
    {m : Mem} {a : ℕ} {bytes : List ℕ} (b n : ℕ)
    → a ≢ b
    → Stored m a bytes
    → Stored (freed b n m) a bytes
freed-Stored b n ne st = record { older = st.older; holds = ground (arith, st.holds) }

-- What is stored in the one memory is stored in the other.
abbrev pub Keeps : Mem → Mem → Type 0
Keeps m m' = (a : ℕ) (bytes : List ℕ) → Stored m a bytes → Stored m' a bytes

-- A text at the start of an object.
pub StandsAt-Views :
    {m : Mem} {a : ℕ} {s bytes : List ℕ}
    → Stored m a bytes
    → StandsAt bytes 0 s
    → Views m (view (at_heap a 0) (length s)) s
StandsAt-Views {m} {a} {s} {bytes} st at = record {
  holds =
      subst (λ n. Holds n (at_heap a 0) s) (sym (written_self m a bytes st.holds))
        (StandsAt-Holds m a at);
  len_is = refl;
}
