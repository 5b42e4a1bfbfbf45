-- ===== src/Bytes/Ends.antt =====
-- src/bytes.c: functions that come to an end, or stop with a fault, whatever the memory holds.
use sleepytext.Prelude.{
  ℕ, zero, suc, ◌+◌, ◌-◌, ◌<◌, ◌≤◌, refl, ◌∙◌, List, [], ◌∷◌, ◌++◌, ◌==◌, not, length, take, ◌⊎◌,
  inl, inr, arith,
}
use sleepytext.Prelude.Words.{sub64}
use sleepytext.Memory.{Ptr, Mem, ◌+p◌}
use sleepytext.Memory.Ends.{
  Ends, Anything, Ends-bind, Ends-pure, Ends-if, Ends-weaken, load-Ends, malloc-Ends, free-Ends,
  store-Ends, Same,
}
use sleepytext.Memory.Holds.{Holds, nil, cons}
use sleepytext.Bytes.{Bytes, view, bvoid, balloc, bfree, bfromstr, string_length, object_size}
use sleepytext.Bytes.Print.{
  Piece, text, number, padded, spaces, read_bytes, write_bytes, c_string, print_pieces, vsnprintf,
  bprintf, show_int,
}

pub balloc-Ends : (n : ℕ) (m : Mem) → Ends m (balloc n) Anything
unfolding balloc
balloc-Ends n m = Ends-bind (malloc-Ends n m) (λ p m' q. Ends-pure (view p n) tt)

pub bfree-Ends : (b : Bytes) (m : Mem) → Ends m (bfree b) Anything
unfolding bfree
bfree-Ends b m = Ends-bind (free-Ends b.ptr m) (λ x m' q. Ends-pure bvoid tt)

pub read_bytes-Ends : (n : ℕ) (p : Ptr) (m : Mem) → Ends m (read_bytes n p) Anything
unfolding read_bytes
read_bytes-Ends zero p m = Ends-pure [] tt
read_bytes-Ends (suc n) p m =
    Ends-bind (load-Ends p m)
      λ c m' q. Ends-bind (read_bytes-Ends n (p +p 1) m') λ rest m'' q'. Ends-pure (c ∷ rest) tt

string_length-Ends : (n : ℕ) (p : Ptr) (i : ℕ) (m : Mem) → Ends m (string_length n p i) Anything
unfolding string_length
string_length-Ends zero p i m = record { after = tt }
string_length-Ends (suc n) p i m =
    Ends-bind (load-Ends (p +p i) m)
      λ c m' q. Ends-if (not (c == 0)) (string_length-Ends n p (i + 1) m') (Ends-pure i tt)

pub c_string-Ends : (p : Ptr) (m : Mem) → Ends m (c_string p) Anything
unfolding c_string bfromstr
c_string-Ends p m =
    Ends-bind {first = bfromstr p} {Q = Anything}
      (record {
        after =
            (Ends-bind (string_length-Ends (object_size m p) p 0 m)
              λ i m' q. Ends-pure (view p i) tt).after;
      })
      λ b m' q. read_bytes-Ends b.len b.ptr m'

-- What was written stands there, and the rest of the object is as it was.
abbrev pub Writes : Ptr → List ℕ → Mem → Mem → Type 0
Writes p xs m m' = Holds m' p xs × Same p (length xs) m m'

apart_next : (i k n : ℕ) → (i < k) ⊎ (k + suc n ≤ i) → (i < k + 1) ⊎ (k + 1 + n ≤ i)
apart_next i k n (inl h) = inl (omega arith)
apart_next i k n (inr h) = inr (omega arith)

apart_here : (i k n : ℕ) → (i < k) ⊎ (k + suc n ≤ i) → (i < k) ⊎ (k + 1 ≤ i)
apart_here i k n (inl h) = inl (omega arith)
apart_here i k n (inr h) = inr (omega arith)

pub write_bytes-Ends :
    (p : Ptr) (xs : List ℕ) (m : Mem) → Ends m (write_bytes p xs) (λ u. Writes p xs m)
unfolding write_bytes
write_bytes-Ends p [] m = Ends-pure tt (nil, λ i apart. refl)
write_bytes-Ends p (x ∷ xs) m = Ends-bind (store-Ends p x m) λ u m1 stored.
    Ends-weaken (write_bytes-Ends (p +p 1) xs m1) λ u' m2 wrote. (
      cons (wrote.1 p.off (inl (omega arith)) ∙ stored.0) wrote.0,
      λ i apart.
          wrote.1 i (apart_next i p.off (length xs) apart)
          ∙ stored.1 i (apart_here i p.off (length xs) apart),
    )

pub print_pieces-Ends : (pieces : List Piece) (m : Mem) → Ends m (print_pieces pieces) Anything
unfolding print_pieces
print_pieces-Ends [] m = Ends-pure [] tt
print_pieces-Ends (text s ∷ pieces) m =
    Ends-bind (print_pieces-Ends pieces m) λ rest m' q. Ends-pure (s ++ rest) tt
print_pieces-Ends (number n ∷ pieces) m =
    Ends-bind (print_pieces-Ends pieces m) λ rest m' q. Ends-pure (show_int n ++ rest) tt
print_pieces-Ends (padded width p ∷ pieces) m =
    Ends-bind
      (Ends-bind (c_string-Ends p m)
        λ s m' q. Ends-pure {Q = Anything} (spaces (width - length s) ++ s) tt)
      λ s m' q. Ends-bind (print_pieces-Ends pieces m') λ rest m'' q'. Ends-pure (s ++ rest) tt

pub bprintf-Ends : (b : Bytes) (pieces : List Piece) (m : Mem) → Ends m (bprintf b pieces) Anything
unfolding bprintf vsnprintf
bprintf-Ends b pieces m =
    Ends-bind {Q = Anything}
      (Ends-bind (print_pieces-Ends pieces m) λ s m' q.
        Ends-bind {Q = Anything}
          (Ends-if (b.len == 0) (Ends-pure tt tt) (
            Ends-weaken (write_bytes-Ends b.ptr (take (b.len - 1) s ++ 0 ∷ []) m') (λ u m'' w. tt)))
          λ u m'' q'. Ends-pure (length s) tt)
      λ n m' q.
        Ends-pure (record { first = view b.ptr n; second = view (b.ptr +p n) (sub64 b.len n) }) tt
