-- ===== src/Bytes/Copy.antt =====
-- src/bytes.c: `bcpy` and `bcat`, into memory that `malloc` gave.
use sleepytext.Prelude.{
  ℕ, zero, suc, ◌+◌, ◌-◌, ◌^◌, ◌≤◌, ◌<◌, ◌≡◌, refl, ap, ◌∙◌, false, some, List, ◌++◌, leb, length,
  length-append, length-set, set, take, length-take, take_all, take-append_short, take-append_long,
  inl, inr, Bool-cases, arith,
}
use sleepytext.Prelude.Words.{sub64, add64, sub64_exact}
use sleepytext.Memory.{Mem, Ptr, ok}
use sleepytext.Memory.Holds.{Holds, nil, cons, Holds-load, Holds-take}
use sleepytext.Memory.Write.{
  at_heap, is_heap, written, written-written, written_self, written_at, store-written,
  Holds-written,
}
use sleepytext.Memory.Overwrite.{overwrite, length-overwrite, overwrite-append}
use sleepytext.Bytes.{Bytes, view, min_size, memcpy, bcpy, bslice, bcat}
use sleepytext.Bytes.Views.{Views}

-- `memcpy` from outside the object `a` into it.
pub memcpy-overwrite :
    (n a off : ℕ) (cs : List ℕ) {m : Mem} {src : Ptr} {xs : List ℕ}
    → n ≡ length xs
    → m.objects a ≡ some cs
    → off + length xs ≤ length cs
    → is_heap a src.block ≡ false
    → Holds m src xs
    → memcpy n (at_heap a off) src m ≡ ok tt (written m a (overwrite cs off xs))
unfolding memcpy
memcpy-overwrite zero a off cs {m} e o fits apart nil = ap (ok tt) (written_self m a cs o)
memcpy-overwrite zero a off cs e o fits apart (cons p h) = absurd (omega arith)
memcpy-overwrite (suc n) a off cs e o fits apart nil = absurd (omega arith)
memcpy-overwrite (suc n) a off cs {m} e o fits apart (cons {x} {xs} p h) =
    let cs' = set cs off x in
    rw (Holds-load (cons p h), store-written m a off x cs o (omega arith))
      (memcpy-overwrite n a (off + 1) cs' (omega arith) (written_at m a cs')
          (omega (arith, length-set cs off x)) apart (Holds-written a cs' apart h)
        ∙ ap (ok tt) (written-written m a cs' (overwrite cs' (off + 1) xs)))

length-take_min : (n : ℕ) (xs : List ℕ) → min_size (length xs) n ≡ length (take n xs)
length-take_min n xs = ground (arith, length-take n xs)

-- `bcpy` copies as much as both views allow.
pub bcpy-overwrite :
    {m : Mem} {src : Bytes} {cs xs : List ℕ} (a off n : ℕ)
    → Views m src xs
    → m.objects a ≡ some cs
    → off + n ≤ length cs
    → is_heap a src.ptr.block ≡ false
    → bcpy (view (at_heap a off) n) src m
      ≡ ok (view (at_heap a off) (length (take n xs))) (written m a (overwrite cs off (take n xs)))
unfolding bcpy
bcpy-overwrite {m} {src} {cs} {xs} a off n v o fits apart =
    rw (v.len_is, length-take_min n xs)
      (rw
        (memcpy-overwrite (length (take n xs)) a off cs refl o (omega (arith, length-take n xs))
          apart (Holds-take n v.holds))
        refl)

-- The slice of a view from `k` on, for the second copy of `bcat`.
bslice_rest :
    (a off n k : ℕ)
    → k < n
    → n < 2 ^ 64
    → bslice (view (at_heap a off) n) k 0 ≡ view (at_heap a (off + k)) (n - k)
unfolding bslice sub64 add64
bslice_rest a off n k h small = ground arith

bslice_past : (p : Ptr) (n k : ℕ) → n ≤ k → bslice (view p n) k 0 ≡ view p 0
unfolding bslice
bslice_past p n k h = ground arith

-- What `bcat` reports, from the length of the rest of `dst`.
rest_len : (p : Ptr) (n k : ℕ) → n < 2 ^ 64 → (bslice (view p n) k 0).len ≡ n - k
unfolding bslice sub64 add64
rest_len p n k h = ground arith

module _ {m : Mem} {arg1 arg2 : Bytes} {cs xs ys : List ℕ} (a off n : ℕ) where
  -- Both copies, from the slice that the second one goes to.
  bcat_copies :
      (off₂ k : ℕ)
      → Views m arg1 xs
      → Views m arg2 ys
      → m.objects a ≡ some cs
      → off + n ≤ length cs
      → off₂ + k ≤ length cs
      → k ≤ n
      → n < 2 ^ 64
      → is_heap a arg1.ptr.block ≡ false
      → is_heap a arg2.ptr.block ≡ false
      → bslice (view (at_heap a off) n) (length xs) 0 ≡ view (at_heap a off₂) k
      → bcat (view (at_heap a off) n) arg1 arg2 m
        ≡ ok
            (view (at_heap a off) (n - (k - length ys)))
            (written m a (overwrite (overwrite cs off (take n xs)) off₂ (take k ys)))
  unfolding bcat
  bcat_copies off₂ k v₁ v₂ o fits fits₂ le small apart₁ apart₂ slice =
      let cs' = overwrite cs off (take n xs) in
      let v₂' : Views (written m a cs') arg2 ys = record {
        holds = Holds-written a cs' apart₂ v₂.holds;
        len_is = v₂.len_is;
      } in
      rw (bcpy-overwrite a off n v₁ o fits apart₁, v₁.len_is, slice)
        (rw
          (
            bcpy-overwrite a off₂ k v₂' (written_at m a cs')
                (omega (arith, length-overwrite cs off (take n xs))) apart₂,
            v₂.len_is,
          )
          (rw (written-written m a cs' (overwrite cs' off₂ (take k ys))) (
            ap (λ l. ok (view (at_heap a off) l) (written m a (overwrite cs' off₂ (take k ys))))
              (rw (rest_len (at_heap a off₂) k (length ys) (omega arith))
                (sub64_exact n (k - length ys) (omega arith) small)))))

  -- `bcat` into `n` bytes of an allocated object, from two views outside it, writes there as much
  -- of the two texts, one behind the other, as fits, writes nowhere else, and returns the view of
  -- what it wrote.
  pub bcat-append :
      Views m arg1 xs
      → Views m arg2 ys
      → m.objects a ≡ some cs
      → off + n ≤ length cs
      → n < 2 ^ 64
      → is_heap a arg1.ptr.block ≡ false
      → is_heap a arg2.ptr.block ≡ false
      → bcat (view (at_heap a off) n) arg1 arg2 m
        ≡ ok
            (view (at_heap a off) (length (take n (xs ++ ys))))
            (written m a (overwrite cs off (take n (xs ++ ys))))
  bcat-append v₁ v₂ o fits small apart₁ apart₂ = elim (Bool-cases (leb n (length xs))) [
    | inl full ↦
        bcat_copies off 0 v₁ v₂ o fits (omega arith) (omega arith) small apart₁ apart₂
          (bslice_past (at_heap a off) n (length xs) (ground arith))
        ∙ rw (take-append_short n xs ys (ground arith)) (ground (arith, length-take n xs))
    | inr room ↦
        bcat_copies (off + length xs) (n - length xs) v₁ v₂ o fits (ground arith) (omega arith)
          small apart₁ apart₂ (bslice_rest a off n (length xs) (ground arith) small)
        ∙ rw
            (
              take-append_long n xs ys (ground arith),
              take_all n xs (ground arith),
              overwrite-append,
              length-append,
            )
            (ground (arith, length-take (n - length xs) ys))
  ]
