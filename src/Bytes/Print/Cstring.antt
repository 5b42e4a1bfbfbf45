-- ===== src/Bytes/Print/Cstring.antt =====
-- src/bytes.c: `bfromstr` is the length of a C string.
use sleepytext.Prelude.{
  ℕ, zero, suc, ◌+◌, ◌<◌, ◌≡◌, refl, ap, some, inl, inr, Option-cases, List, [], ◌∷◌, ◌++◌, length,
  get_elem?, arith,
}
use sleepytext.Memory.{Mem, Ptr, ◌+p◌, peek, ok, contents}
use sleepytext.Memory.Holds.{Holds, nil, cons, Holds-load, Holds-tail, +p-+p, +p_zero, Holds-append}
use sleepytext.Bytes.{view, bfromstr, string_length, object_size}
use sleepytext.Bytes.Find.First.{Lacks}
use sleepytext.Bytes.Print.{read_bytes, c_string}

lt_of_get : (xs : List ℕ) (i x : ℕ) → get_elem? xs i ≡ some x → i < length xs
lt_of_get [] i x h = cc
lt_of_get (y ∷ xs) zero x h = omega arith
lt_of_get (y ∷ xs) (suc i) x h = omega (arith, lt_of_get xs i x h)

peek_inside : (m : Mem) (p : Ptr) (x : ℕ) → peek m p ≡ some x → p.off < object_size m p
unfolding peek
peek_inside m p x h = elim (Option-cases (contents m p.block)) [
  | inl e ↦ ground arith
  | inr (cs, e) ↦ ground (arith, lt_of_get cs p.off x)
]

string_length-Holds :
    (n k : ℕ) (p : Ptr) {m : Mem} (xs : List ℕ)
    → Holds m (p +p k) (xs ++ 0 ∷ [])
    → Lacks 0 xs
    → length xs < n
    → string_length n p k m ≡ ok (k + length xs) m
unfolding string_length
string_length-Holds zero k p xs h l lt = elim lt [ ]
string_length-Holds (suc n) k p {m} [] h l lt = rw (Holds-load h) (ap (λ i. ok i m) (omega arith))
string_length-Holds (suc n) k p {m} (x ∷ xs) h l lt = rw (Holds-load h) (
    ground (
      arith,
      string_length-Holds n (k + 1) p {m = m} xs (rw (+p-+p p k 1) at (Holds-tail h)) l.1
          (omega arith),
    ))

nul_inside :
    {m : Mem} {p : Ptr} (xs : List ℕ)
    → Holds m p (xs ++ 0 ∷ [])
    → p.off + length xs < object_size m p
nul_inside {m} {p} xs h = head_inside (Holds-append xs h).1
  where
    head_inside : Holds m (p +p length xs) (0 ∷ []) → p.off + length xs < object_size m p
    head_inside (cons e k) = peek_inside m (p +p length xs) 0 e

-- On a string that ends in a NUL inside its object, `bfromstr` finds this end: it returns the view
-- of the bytes before it.
pub bfromstr-Holds :
    {m : Mem} {p : Ptr} (xs : List ℕ)
    → Holds m p (xs ++ 0 ∷ [])
    → Lacks 0 xs
    → bfromstr p m ≡ ok (view p (length xs)) m
unfolding bfromstr
bfromstr-Holds {m} {p} xs h l =
    rw
      (string_length-Holds (object_size m p) 0 p xs (rw (← +p_zero p) at h) l
        (omega (arith, nul_inside xs h)))
      (ap (λ n. ok (view p n) m) (omega arith))

pub read_bytes-Holds :
    (n : ℕ) {m : Mem} {p : Ptr} {xs : List ℕ}
    → Holds m p xs
    → n ≡ length xs
    → read_bytes n p m ≡ ok xs m
unfolding read_bytes
read_bytes-Holds zero nil e = refl
read_bytes-Holds zero (cons h k) e = absurd (omega arith)
read_bytes-Holds (suc n) nil e = absurd (omega arith)
read_bytes-Holds (suc n) (cons h k) e =
    rw (Holds-load (cons h k), read_bytes-Holds n k (omega arith)) refl

pub c_string-Holds :
    {m : Mem} {p : Ptr} (xs : List ℕ)
    → Holds m p (xs ++ 0 ∷ [])
    → Lacks 0 xs
    → c_string p m ≡ ok xs m
unfolding c_string
c_string-Holds xs h l =
    rw (bfromstr-Holds xs h l) (read_bytes-Holds (length xs) (Holds-append xs h).0 refl)
