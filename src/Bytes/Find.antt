-- ===== src/Bytes/Find.antt =====
-- src/bytes.c: `bfind` on memory is a scan of the list of bytes that the memory holds.
pub mod First
pub mod Sound
use sleepytext.Prelude.{
  ℕ, zero, suc, ◌+◌, ◌-◌, ◌≤◌, ◌<◌, ◌≡◌, ◌≢◌, refl, Bool, true, false, Option, none, some, List, [],
  ◌∷◌, inl, inr, ◌==◌, if◌then◌else◌, length, Bool-cases, arith,
}
use sleepytext.Prelude.Words.{int_max}
use sleepytext.Memory.{Mem, Ptr, ◌+p◌, ok, load, inc_int}
use sleepytext.Memory.Holds.{Holds, nil, cons, Holds-load, Holds-tail, +p-+p, +p_zero}
use sleepytext.Bytes.{Bytes, BFound, not_found, found_at, bfind_loop, bfind}
use sleepytext.Bytes.Views.{Views}

-- `r` is what is left of the pattern `ws`, and `i` the position of the text's next byte; the result
-- is the position of the last byte of the match.
unfoldable pub scan : List ℕ → List ℕ → List ℕ → ℕ → Option ℕ
scan ws r [] i = none
scan ws [] (x ∷ xs) i = none
scan ws (w ∷ []) (x ∷ xs) i = let again = scan ws ws xs (i + 1) in if x == w then some i else again
scan ws (w ∷ v ∷ r) (x ∷ xs) i =
    let next = scan ws (v ∷ r) xs (i + 1) in
    let again = scan ws ws xs (i + 1) in if x == w then next else again

abbrev pub result : Bytes → Bytes → Option ℕ → BFound
result inp what none = not_found inp
result inp what (some i) = found_at inp what i

inc_int-ok : (i : ℕ) (m : Mem) → i < int_max → inc_int i m ≡ ok (i + 1) m
unfolding inc_int
inc_int-ok i m h = ground arith

module _ {m : Mem} (inp what : Bytes) (w₀ : ℕ) (ws₀ : List ℕ) (vw : Views m what (w₀ ∷ ws₀)) where
  bfind_loop-scan :
      (n i j : ℕ) {r xs : List ℕ}
      → Holds m (inp.ptr +p i) xs
      → n ≡ length xs
      → Holds m (what.ptr +p j) r
      → j + length r ≡ what.len
      → r ≢ []
      → i + length xs ≤ int_max
      → j ≤ i
      → bfind_loop n inp what i j m ≡ ok (result inp what (scan (w₀ ∷ ws₀) r xs i)) m
  unfolding bfind_loop scan
  bfind_loop-scan zero i j nil e hr lr ne le ji = refl
  bfind_loop-scan zero i j (cons p h) e hr lr ne le ji = absurd (omega arith)
  bfind_loop-scan (suc n) i j nil e hr lr ne le ji = absurd (omega arith)
  bfind_loop-scan (suc n) i j (cons p h) e nil lr ne le ji = absurd (ne refl)
  bfind_loop-scan (suc n) i j (cons {x} {xs} p h) e (cons {x = w} {xs = []} q k) lr ne le ji =
      let fresh =
        bfind_loop-scan n (i + 1) 0 (rw (+p-+p inp.ptr i 1) at h) (omega arith)
          (rw (← +p_zero what.ptr) at vw.holds) (omega (arith, vw.len_is)) (cc) (omega arith)
          (omega arith) in
      rw (Holds-load (cons p h), Holds-load (cons q k))
        (elim (Bool-cases (x == w)) [
          | inl hit ↦ rw (hit, inc_int-ok j m (omega arith)) (ground arith)
          | inr miss ↦ rw (miss, inc_int-ok i m (omega arith)) fresh
        ])
  bfind_loop-scan (suc n) i j (cons {x} {xs} p h) e (cons {x = w} {xs = v ∷ r} q k) lr ne le ji =
      let fresh =
        bfind_loop-scan n (i + 1) 0 (rw (+p-+p inp.ptr i 1) at h) (omega arith)
          (rw (← +p_zero what.ptr) at vw.holds) (omega (arith, vw.len_is)) (cc) (omega arith)
          (omega arith) in
      let next =
        bfind_loop-scan n (i + 1) (j + 1) (rw (+p-+p inp.ptr i 1) at h) (omega arith)
          (rw (+p-+p what.ptr j 1) at k) (omega arith) (cc) (omega arith) (omega arith) in
      let more : (j + 1 == what.len) ≡ false = ground arith in
      rw (Holds-load (cons p h), Holds-load (cons q k))
        (elim (Bool-cases (x == w)) [
          | inl hit ↦
              rw (hit, inc_int-ok j m (omega arith)) (rw (more, inc_int-ok i m (omega arith)) next)
          | inr miss ↦ rw (miss, inc_int-ok i m (omega arith)) fresh
        ])

-- `bfind` of a text in memory reads no byte outside the two views, changes nothing and returns the
-- views that the scan of the text gives.
pub bfind-scan :
    {m : Mem} {inp what : Bytes} {xs : List ℕ} {w : ℕ} {ws : List ℕ}
    → Views m inp xs
    → Views m what (w ∷ ws)
    → length xs ≤ int_max
    → bfind inp what m ≡ ok (result inp what (scan (w ∷ ws) (w ∷ ws) xs 0)) m
unfolding bfind
bfind-scan {inp} {what} {w} {ws} vi vw le =
    bfind_loop-scan inp what w ws vw inp.len 0 0 (rw (← +p_zero inp.ptr) at vi.holds) vi.len_is
      (rw (← +p_zero what.ptr) at vw.holds) (omega (arith, vw.len_is)) (cc) (omega arith)
      (omega arith)
