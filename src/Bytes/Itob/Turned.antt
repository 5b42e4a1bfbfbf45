-- ===== src/Bytes/Itob/Turned.antt =====
-- src/bytes.c: the second loop of `itob` turns a run of bytes round in place.
use mathlib.Core.List.{append_assoc}
use sleepytext.Prelude.{
  ℕ, zero, suc, ◌+◌, ◌-◌, ◌*◌, ◌≤◌, ◌≡◌, refl, sym, ap, ◌∙◌, some, List, [], ◌∷◌, ◌++◌, length,
  length-append, arith,
}
use sleepytext.Memory.{Mem, ok, load, store}
use sleepytext.Memory.Holds.{Holds-load}
use sleepytext.Memory.Object.{object-Holds, set-middle}
use sleepytext.Memory.Write.{
  at_heap, written, written_at, written_self, written-written, store-written,
}
use sleepytext.Bytes.{view}
use sleepytext.Bytes.Itob.{turn_digits}

abbrev pub reverse : List ℕ → List ℕ
reverse [] = []
reverse (x ∷ xs) = reverse xs ++ x ∷ []

pub reverse-append_one : (xs : List ℕ) (y : ℕ) → reverse (xs ++ y ∷ []) ≡ y ∷ reverse xs
reverse-append_one [] y = refl
reverse-append_one (x ∷ xs) y = ap (λ zs. zs ++ x ∷ []) (reverse-append_one xs y)

last_of : (x : ℕ) (xs : List ℕ) → (ys : List ℕ) × (y : ℕ) × (x ∷ xs ≡ ys ++ y ∷ [])
last_of x [] = ([], x, refl)
last_of x (z ∷ xs) = let (ys, y, e) = last_of z xs in (x ∷ ys, y, ap (◌∷◌ x) e)

-- A byte stored into a run.
pub store_at :
    (m : Mem) (a k c old : ℕ) (pre post : List ℕ)
    → m.objects a ≡ some (pre ++ old ∷ post)
    → k ≡ length pre
    → store (at_heap a k) c m ≡ ok tt (written m a (pre ++ c ∷ post))
store_at m a k c old pre post o e =
    store-written m a k c (pre ++ old ∷ post) o (omega (arith, length-append pre (old ∷ post)))
    ∙ ap (λ cs. ok tt (written m a cs)) (set-middle pre old c post k e)

load_at :
    (m : Mem) (a k c : ℕ) (pre post : List ℕ)
    → m.objects a ≡ some (pre ++ c ∷ post)
    → k ≡ length pre
    → load (at_heap a k) m ≡ ok c m
load_at m a k c pre post o e = Holds-load (object-Holds a k pre (c ∷ []) post o e)

-- A round changes the first byte of a run for its last one.
module _ (m : Mem) (a l x y : ℕ) (pre ys post : List ℕ) where
  abbrev once : Mem
  once = written m a (pre ++ y ∷ (ys ++ y ∷ post))

  abbrev twice : Mem
  twice = written once a (pre ++ y ∷ (ys ++ x ∷ post))

  regroup : (c d : ℕ) → (pre ++ c ∷ (ys ++ d ∷ post)) ≡ (pre ++ c ∷ ys) ++ d ∷ post
  regroup c d = sym (append_assoc pre (c ∷ ys) (d ∷ post))

  load_last :
      m.objects a ≡ some (pre ++ x ∷ (ys ++ y ∷ post))
      → l ≡ length pre + 1 + length ys
      → load (at_heap a l) m ≡ ok y m
  load_last o e =
      load_at m a l y (pre ++ x ∷ ys) post (o ∙ ap some (regroup x y))
        (omega (arith, length-append pre (x ∷ ys)))

  store_last : l ≡ length pre + 1 + length ys → store (at_heap a l) x once ≡ ok tt twice
  store_last e =
      store_at once a l x y (pre ++ y ∷ ys) post
        (written_at m a (pre ++ y ∷ (ys ++ y ∷ post)) ∙ ap some (regroup y y))
        (omega (arith, length-append pre (y ∷ ys)))
      ∙ ap (λ cs. ok tt (written once a cs)) (sym (regroup y x))

pub turn_digits-reverse :
    (n : ℕ) (xs pre post : List ℕ) (m : Mem) (a off i j len : ℕ)
    → m.objects a ≡ some (pre ++ (xs ++ post))
    → n * 2 ≤ length xs
    → length xs ≤ n * 2 + 1
    → off + j ≡ length pre
    → i ≡ j + length xs + j
    → turn_digits n (view (at_heap a off) len) i j m
      ≡ ok tt (written m a (pre ++ (reverse xs ++ post)))
unfolding turn_digits
turn_digits-reverse zero [] pre post m a off i j len o h h' e e' = ap (ok tt) (written_self m a _ o)
turn_digits-reverse zero (x ∷ []) pre post m a off i j len o h h' e e' =
    ap (ok tt) (written_self m a _ o)
turn_digits-reverse zero (x ∷ y ∷ xs) pre post m a off i j len o h h' e e' = absurd (omega arith)
turn_digits-reverse (suc n) [] pre post m a off i j len o h h' e e' = absurd (omega arith)
turn_digits-reverse (suc n) (x ∷ []) pre post m a off i j len o h h' e e' = absurd (omega arith)
turn_digits-reverse (suc n) (x ∷ z ∷ zs) pre post m a off i j len o h h' e e' =
    let (ys, y, is) = last_of z zs in
    let size : length (z ∷ zs) ≡ length ys + 1 = ap length is ∙ length-append ys (y ∷ []) in
    let whole : ((z ∷ zs) ++ post) ≡ ys ++ y ∷ post =
      ap (λ t. t ++ post) is ∙ append_assoc ys (y ∷ []) post in
    let o' : m.objects a ≡ some (pre ++ x ∷ (ys ++ y ∷ post)) =
      o ∙ ap (λ t. some (pre ++ x ∷ t)) whole in
    let at_end : off + (i - j - 1) ≡ length pre + 1 + length ys = omega arith in
    let rev : reverse (z ∷ zs) ≡ y ∷ reverse ys = ap reverse is ∙ reverse-append_one ys y in
    let turned : ((pre ++ y ∷ []) ++ (reverse ys ++ x ∷ post))
        ≡ pre ++ (reverse (x ∷ z ∷ zs) ++ post) =
      append_assoc pre (y ∷ []) (reverse ys ++ x ∷ post)
      ∙ ap (λ t. pre ++ t)
          (sym
            (ap (λ r. (r ++ x ∷ []) ++ post) rev ∙ append_assoc (y ∷ reverse ys) (x ∷ []) post)) in
    let again =
      turn_digits-reverse n ys (pre ++ y ∷ []) (x ∷ post)
        (twice m a (off + (i - j - 1)) x y pre ys post) a off i (j + 1) len
        (written_at _ a _ ∙ ap some (sym (append_assoc pre (y ∷ []) (ys ++ x ∷ post))))
        (omega arith) (omega arith) (omega (arith, length-append pre (y ∷ []))) (omega arith) in
    rw
      (
        load_at m a (off + j) x pre (ys ++ y ∷ post) o' e,
        load_last m a (off + (i - j - 1)) x y pre ys post o' at_end,
        store_at m a (off + j) y x pre (ys ++ y ∷ post) o' e,
        store_last m a (off + (i - j - 1)) x y pre ys post at_end,
      )
      (again
        ∙ ap (ok tt) (
            written-written (once m a (off + (i - j - 1)) x y pre ys post) a _ _
            ∙ written-written m a _ _
            ∙ ap (written m a) turned))
