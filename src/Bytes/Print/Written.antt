-- ===== src/Bytes/Print/Written.antt =====
-- src/bytes.c: what `bprintf` writes, where the text fits.
use sleepytext.Prelude.{
  ℕ, ◌+◌, ◌-◌, ◌^◌, ◌≤◌, ◌<◌, ◌≡◌, refl, ap, ◌∙◌, some, false, List, [], ◌∷◌, ◌++◌, ◌==◌, length,
  length-append, length-set, set, take_all, arith,
}
use sleepytext.Prelude.Words.{sub64_exact}
use sleepytext.Memory.{Mem, ok}
use sleepytext.Memory.Write.{
  at_heap, written, written-written, written_self, written_at, store-written,
}
use sleepytext.Memory.Overwrite.{overwrite}
use sleepytext.Bytes.{view}
use sleepytext.Bytes.Print.{Piece, BPair, print_pieces, write_bytes, bprintf}

pub write_bytes-overwrite :
    (xs : List ℕ) (a off : ℕ) (cs : List ℕ) (m : Mem)
    → m.objects a ≡ some cs
    → off + length xs ≤ length cs
    → write_bytes (at_heap a off) xs m ≡ ok tt (written m a (overwrite cs off xs))
unfolding write_bytes
write_bytes-overwrite [] a off cs m o fits = ap (ok tt) (written_self m a cs o)
write_bytes-overwrite (x ∷ xs) a off cs m o fits =
    let cs' = set cs off x in
    rw (store-written m a off x cs o (omega arith)) (
      write_bytes-overwrite xs a (off + 1) cs' (written m a cs') (written_at m a cs')
        (omega (arith, length-set cs off x))
      ∙ ap (ok tt) (written-written m a cs' (overwrite cs' (off + 1) xs)))

-- The two views of `bprintf`, where the text has `k` bytes.
abbrev pub printed : ℕ → ℕ → ℕ → ℕ → BPair
printed a off n k = record {
  first = view (at_heap a off) k;
  second = view (at_heap a (off + k)) (n - k);
}

-- `bprintf` of a text that is shorter than the view, into an allocated object, writes the text with
-- a NUL behind it and nothing else, and returns the view of the text and the view of the room
-- behind it, which begins at the NUL.
pub bprintf-overwrite :
    (a off n : ℕ) (cs s : List ℕ) (pieces : List Piece) {m : Mem}
    → print_pieces pieces m ≡ ok s m
    → m.objects a ≡ some cs
    → length s < n
    → off + n ≤ length cs
    → n < 2 ^ 64
    → bprintf (view (at_heap a off) n) pieces m
      ≡ ok (printed a off n (length s)) (written m a (overwrite cs off (s ++ 0 ∷ [])))
unfolding bprintf
bprintf-overwrite a off n cs s pieces {m} prints o room fits small =
    let some_room : (n == 0) ≡ false = ground arith in
    rw (prints, some_room, take_all (n - 1) s (omega arith))
      (rw
        (
          write_bytes-overwrite (s ++ 0 ∷ []) a off cs m o
              (omega (arith, length-append s (0 ∷ []))),
          sub64_exact n (length s) (omega arith) small,
        )
        refl)
