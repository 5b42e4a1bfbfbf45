-- ===== src/Bytes/Slice.antt =====
-- src/bytes.c: `bslice` of a view whose bytes are known.
use sleepytext.Prelude.{
  ℕ, zero, suc, ◌≤◌, ◌≡◌, refl, true, false, List, [], ◌∷◌, leb, ltb, length, length-drop,
  length-take, take, drop, inl, inr, Bool-cases, arith,
}
use sleepytext.Prelude.Words.{int_max, sub64, add64}
use sleepytext.Memory.{Mem}
use sleepytext.Memory.Holds.{nil, Holds-drop, Holds-take, +p_zero}
use sleepytext.Bytes.{Bytes, bslice}
use sleepytext.Bytes.Views.{Views}

drop_all : (k : ℕ) (xs : List ℕ) → length xs ≤ k → drop k xs ≡ []
drop_all zero [] h = refl
drop_all zero (x ∷ xs) h = absurd (omega arith)
drop_all (suc k) [] h = refl
drop_all (suc k) (x ∷ xs) h = drop_all k xs (omega arith)

module _ {m : Mem} {b : Bytes} {xs : List ℕ} where
  -- With the end 0 the slice is the rest of the view from `k` on, empty if `k` is past its end.
  pub bslice-drop :
      (k : ℕ) → Views m b xs → length xs ≤ int_max → Views m (bslice b k 0) (drop k xs)
  unfolding bslice sub64 add64
  bslice-drop k v le = elim (Bool-cases (leb b.len k)) [
    | inl past ↦
        rw (past, drop_all k xs (ground (arith, v.len_is))) (record { holds = nil; len_is = refl })
    | inr inside ↦ rw inside (record {
      holds = Holds-drop k v.holds;
      len_is = ground (arith, v.len_is, length-drop k xs);
    })
  ]

  -- A slice from the start up to a positive end inside the view is a prefix of it.
  pub bslice-take :
      (k : ℕ)
      → Views m b xs
      → length xs ≤ int_max
      → 1 ≤ k
      → k ≤ length xs
      → Views m (bslice b 0 k) (take k xs)
  unfolding bslice sub64 add64
  bslice-take k v le pos_k inside =
      let some_bytes : leb b.len 0 ≡ false = ground (arith, v.len_is) in
      let positive : ltb 0 k ≡ true = ground arith in
      rw (some_bytes, positive)
        (record {
          holds = rw (+p_zero b.ptr) (Holds-take k v.holds);
          len_is = ground (arith, length-take k xs);
        })
