-- ===== src/Bytes.antt =====
-- src/bytes.c: byte views, their slices and copies. A view is a pointer and a length; what the
-- functions read and write is the memory behind it. `memcpy`, `memcmp` and `malloc` are C's;
-- `memcmp` is the loop that stops at the first difference and returns it.
pub mod Copy
pub mod Ends
pub mod Find
pub mod Fresh
pub mod Itob
pub mod Number
pub mod Print
pub mod Same
pub mod Scan
pub mod Slice
pub mod Stored
pub mod Streams
pub mod Views
use sleepytext.Prelude.{
  ℕ, zero, suc, ◌+◌, ◌-◌, ◌≡◌, Bool, true, false, Option, none, some, List, [], ◌∷◌, ◌++◌, ltb, leb,
  ◌==◌, if◌then◌else◌, length, not,
}
use sleepytext.Prelude.Int.{ℤ, pos, negsuc, sub_ℕ}
use sleepytext.Prelude.Words.{sub64, add64}
use sleepytext.Memory.{
  Ptr, null_ptr, static, ◌+p◌, Mem, contents, Action, pure, crash, ◌>>=◌, ◌>>◌, load, store, malloc,
  free, inc_int,
}

pub record Bytes : Type 0 where
  pub ptr : Ptr
  pub len : ℕ

abbrev pub view : Ptr → ℕ → Bytes
view p n = record { ptr = p; len = n }

-- `bvoid`
abbrev pub bvoid : Bytes
bvoid = view null_ptr 0

-- `Bs("...")`: the literal is stored with its final NUL, which `len` does not count.
abbrev pub bs : List ℕ → Bytes
bs s = view (record { block = static (s ++ 0 ∷ []); off = 0 }) (length s)

abbrev pub min_size : ℕ → ℕ → ℕ
min_size f s = if ltb f s then f else s

unfoldable pub memcpy : ℕ → Ptr → Ptr → Action (Unit {0})
memcpy zero dst src = pure tt
memcpy (suc n) dst src = do c ← load src; store dst c; memcpy n (dst +p 1) (src +p 1)

unfoldable pub memcmp : ℕ → Ptr → Ptr → Action ℤ
memcmp zero p q = pure (pos 0)
memcmp (suc n) p q = do
  c ← load p
  d ← load q
  if c == d then memcmp n (p +p 1) (q +p 1) else pure (sub_ℕ c d)

unfoldable pub bcpy : Bytes → Bytes → Action Bytes
bcpy dst src =
    let s = min_size src.len dst.len in do memcpy s dst.ptr src.ptr; pure (view dst.ptr s)

unfoldable pub balloc : ℕ → Action Bytes
balloc n = do p ← malloc n; pure (view p n)

-- `bfree` clears the view that its argument points at: the cleared view is the result.
unfoldable pub bfree : Bytes → Action Bytes
bfree buf = do free buf.ptr; pure bvoid

-- The object ends after `n` more bytes, and a read behind its end is a fault.
unfoldable pub string_length : ℕ → Ptr → ℕ → Action ℕ
string_length zero p null = crash
string_length (suc n) p null = do
  c ← load (p +p null)
  if not (c == 0) then string_length n p (null + 1) else pure null

abbrev pub object_size : Mem → Ptr → ℕ
object_size m p = elim (contents m p.block) [ none ↦ 0 | some cs ↦ length cs ]

unfoldable pub bfromstr : Ptr → Action Bytes
unfolding string_length
bfromstr p m = (string_length (object_size m p) p 0 >>= λ null. pure (view p null)) m

-- The lengths wrap as `size_t`: nothing checks `end` against the view.
unfoldable pub bslice : Bytes → ℕ → ℕ → Bytes
bslice string start end =
    if leb string.len start
    then view string.ptr 0
    else if ltb 0 end
    then view (string.ptr +p start) (sub64 end start)
    else view (string.ptr +p start) (sub64 (add64 string.len end) start)

unfoldable pub bcat : Bytes → Bytes → Bytes → Action Bytes
unfolding bcpy bslice
bcat dst arg1 arg2 = do
  bcpy dst arg1
  let r = bslice dst arg1.len 0
  bcpy r arg2
  let r' = bslice r arg2.len 0
  pure (view dst.ptr (sub64 dst.len r'.len))

pub record BFound : Type 0 where
  pub before : Bytes
  pub found : Bytes
  pub after : Bytes

abbrev pub not_found : Bytes → BFound
not_found inp = record { before = inp; found = bvoid; after = bvoid }

-- The three views where the match ends with byte `i` of `inp`.
abbrev pub found_at : Bytes → Bytes → ℕ → BFound
found_at inp what i = record {
  before = view inp.ptr (add64 (sub64 i what.len) 1);
  found = view (inp.ptr +p (i + 1 - what.len)) what.len;
  after = view (inp.ptr +p (i + 1)) (sub64 (sub64 inp.len i) 1);
}

-- `n` is the number of rounds left, `in.length - i`. A mismatch sets `j` back to 0 and goes on
-- with the next byte.
bfind_loop : ℕ → Bytes → Bytes → ℕ → ℕ → Action BFound
bfind_loop zero inp what i j = pure (not_found inp)
bfind_loop (suc n) inp what i j = do
  c ← load (inp.ptr +p i)
  d ← load (what.ptr +p j)
  if c == d
      then (do
        j' ← inc_int j
        if j' == what.len
            then pure (found_at inp what i)
            else (do i' ← inc_int i; bfind_loop n inp what i' j'))
      else (do i' ← inc_int i; bfind_loop n inp what i' 0)

unfoldable pub bfind : Bytes → Bytes → Action BFound
unfolding bfind_loop
bfind inp what = bfind_loop inp.len inp what 0 0

unfoldable pub bcmp2 : Bytes → Bytes → Action ℤ
bcmp2 first second = memcmp (min_size first.len second.len) first.ptr second.ptr

unfoldable pub bsame : Bytes → Bytes → Action ℤ
unfolding memcmp
bsame first second =
    if not (first.len == second.len) then pure (negsuc 0) else memcmp first.len first.ptr second.ptr
