-- ===== src/Bytes/Views.antt =====
-- src/bytes.c: a view whose memory holds a known list of bytes. A string literal is one.
use mathlib.Core.List.{append_assoc}
use sleepytext.Prelude.{
  ℕ, ◌+◌, ◌≡◌, refl, some, List, [], ◌∷◌, ◌++◌, length, length-append, get_elem?, arith,
}
use sleepytext.Memory.{Mem, peek, static}
use sleepytext.Memory.Holds.{Holds, nil, cons}
use sleepytext.Bytes.{Bytes, bs}

pub record Views (m : Mem) (b : Bytes) (xs : List ℕ) : Type 0 where
  pub holds : Holds m b.ptr xs
  pub len_is : b.len ≡ length xs

get_elem?-append :
    (pre : List ℕ) (x : ℕ) (xs : List ℕ) → get_elem? (pre ++ x ∷ xs) (length pre) ≡ some x
get_elem?-append [] x xs = refl
get_elem?-append (y ∷ pre) x xs = get_elem?-append pre x xs

pub static-Holds :
    {m : Mem} (pre xs post : List ℕ) (i : ℕ)
    → i ≡ length pre
    → Holds m (record { block = static (pre ++ (xs ++ post)); off = i }) xs
unfolding peek
static-Holds pre [] post i e = nil
static-Holds {m} pre (x ∷ xs) post i e = cons (rw e (get_elem?-append pre x (xs ++ post))) (
    rw (← append_assoc pre (x ∷ []) (xs ++ post))
      (static-Holds (pre ++ x ∷ []) xs post (i + 1) (rw length-append (omega arith))))

pub bs-Views : {m : Mem} (s : List ℕ) → Views m (bs s) s
bs-Views s = record { holds = static-Holds [] s (0 ∷ []) 0 refl; len_is = refl }
