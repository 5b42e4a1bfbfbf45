-- ===== src/Bytes/Same.antt =====
-- src/bytes.c: `bsame` tells whether two views hold the same bytes.
use sleepytext.Prelude.{
  ℕ, ◌≡◌, ◌≢◌, ◌↔◌, refl, sym, ap, ◌∙◌, Bool, true, false, List, [], ◌∷◌, ◌==◌, length,
  if◌then◌else◌, inl, inr, Bool-cases, arith,
}
use sleepytext.Prelude.Int.{ℤ, pos, negsuc, sub_ℕ, is_zero}
use sleepytext.Memory.{Mem, Ptr, ok}
use sleepytext.Memory.Holds.{Holds, Holds-load, Holds-tail}
use sleepytext.Bytes.{Bytes, memcmp, bsame}
use sleepytext.Bytes.Views.{Views}

abbrev pub same_list : List ℕ → List ℕ → Bool
same_list [] [] = true
same_list [] (y ∷ ys) = false
same_list (x ∷ xs) [] = false
same_list (x ∷ xs) (y ∷ ys) = let rest = same_list xs ys in if x == y then rest else false

memcmp-same_list :
    (xs ys : List ℕ) {m : Mem} {p q : Ptr}
    → Holds m p xs
    → Holds m q ys
    → length xs ≡ length ys
    → (z : ℤ) × (memcmp (length xs) p q m ≡ ok z m) × (is_zero z ≡ same_list xs ys)
unfolding memcmp
memcmp-same_list [] [] h k e = (pos 0, refl, refl)
memcmp-same_list [] (y ∷ ys) h k e = absurd (omega arith)
memcmp-same_list (x ∷ xs) [] h k e = absurd (omega arith)
memcmp-same_list (x ∷ xs) (y ∷ ys) h k e = elim (Bool-cases (x == y)) [
  | inl same ↦
      let (z, ran, is) = memcmp-same_list xs ys (Holds-tail h) (Holds-tail k) (omega arith) in
      (z, rw (Holds-load h, Holds-load k, same) ran, rw same is)
  | inr other ↦ (sub_ℕ x y, rw (Holds-load h, Holds-load k, other) refl, rw other (ground arith))
]

longer-same_list : (xs ys : List ℕ) → length xs ≢ length ys → same_list xs ys ≡ false
longer-same_list [] [] ne = absurd (ne refl)
longer-same_list [] (y ∷ ys) ne = refl
longer-same_list (x ∷ xs) [] ne = refl
longer-same_list (x ∷ xs) (y ∷ ys) ne = ground (arith, longer-same_list xs ys)

pub bsame-same_list :
    {m : Mem} {b b' : Bytes} {xs ys : List ℕ}
    → Views m b xs
    → Views m b' ys
    → (z : ℤ) × (bsame b b' m ≡ ok z m) × (is_zero z ≡ same_list xs ys)
unfolding bsame
bsame-same_list {b = b} {b' = b'} {xs} {ys} v v' = elim (Bool-cases (length xs == length ys)) [
  | inl same ↦
      let (z, ran, is) = memcmp-same_list xs ys v.holds v'.holds (ground arith) in
      (z, rw (v.len_is, v'.len_is, same) ran, is)
  | inr other ↦
      (negsuc 0, rw (v.len_is, v'.len_is, other) refl, sym (longer-same_list xs ys (ground arith)))
]

same_list_refl : (xs : List ℕ) → same_list xs xs ≡ true
same_list_refl [] = refl
same_list_refl (x ∷ xs) = ground (arith, same_list_refl xs)

same_list_equal : (xs ys : List ℕ) → same_list xs ys ≡ true → xs ≡ ys
same_list_equal [] [] e = refl
same_list_equal [] (y ∷ ys) e = absurd (ground arith)
same_list_equal (x ∷ xs) [] e = absurd (ground arith)
same_list_equal (x ∷ xs) (y ∷ ys) e = elim (Bool-cases (x == y)) [
  | inl same ↦
      let head : x ≡ y = ground arith in rw head (ap (◌∷◌ y) (same_list_equal xs ys (rw same at e)))
  | inr other ↦ absurd (ground arith)
]

-- bsame of two views runs to its end without a fault, and its result is 0 exactly if the views hold
-- the same bytes.
pub bsame-zero :
    {m : Mem} {b b' : Bytes} {xs ys : List ℕ}
    → Views m b xs
    → Views m b' ys
    → (z : ℤ) × (bsame b b' m ≡ ok z m) × ((is_zero z ≡ true) ↔ (xs ≡ ys))
bsame-zero {xs = xs} {ys} v v' =
    let (z, ran, is) = bsame-same_list v v' in
    (
      z,
      ran,
      (
        (λ e. same_list_equal xs ys (sym is ∙ e)),
        (λ e. is ∙ ap (same_list xs) (sym e) ∙ same_list_refl xs),
      ),
    )
