-- ===== src/HttpServer/Routes.antt =====
-- src/http_server.c: which callback answers. The address of a request is read from the header, where
-- a space stands behind it, and no path of the program holds one: so a path that is longer than the
-- address is told from it before a byte behind the header is read.
use mathlib.Core.Path.{subst}
use sleepytext.Prelude.{
  ℕ, ◌^◌, ◌<◌, ◌≡◌, ◌≢◌, refl, sym, ap, Bool, true, false, List, [], ◌∷◌, ◌++◌, ◌&&◌, ◌||◌, ltb,
  leb, ◌==◌, length, if◌then◌else◌, inl, inr, Bool-cases, arith,
}
use sleepytext.Prelude.Int.{ℤ, pos, negsuc, sub_ℕ, is_zero}
use sleepytext.Prelude.Words.{sub64_exact}
use sleepytext.Memory.{Mem, Ptr, ok}
use sleepytext.Memory.Holds.{Holds, Holds-load, Holds-tail, +p_zero}
use sleepytext.Bytes.{Bytes, view, bs, memcmp, bsame, bslice}
use sleepytext.Bytes.Views.{bs-Views}
use sleepytext.Bytes.Find.First.{Lacks}

abbrev pub is_prefix : List ℕ → List ℕ → Bool
is_prefix [] addr = true
is_prefix (x ∷ path) [] = false
is_prefix (x ∷ path) (y ∷ addr) = let rest = is_prefix path addr in if y == x then rest else false

-- A path of two bytes or more answers for every address that begins with it.
abbrev pub route_matches : List ℕ → List ℕ → Bool
route_matches path addr = is_prefix path addr && (ltb 1 (length path) || length addr == length path)

is_zero-sub_ℕ : (c d : ℕ) → c ≢ d → is_zero (sub_ℕ c d) ≡ false
is_zero-sub_ℕ c d ne = ground arith

memcmp-is_prefix :
    (path addr : List ℕ) {m : Mem} {p q : Ptr}
    → Lacks b' ' path
    → Holds m p (addr ++ b' ' ∷ [])
    → Holds m q path
    → (z : ℤ) × (memcmp (length path) p q m ≡ ok z m) × (is_zero z ≡ is_prefix path addr)
unfolding memcmp
memcmp-is_prefix [] addr l h k = (pos 0, refl, refl)
memcmp-is_prefix (x ∷ path) [] l h k = (
  sub_ℕ b' ' x,
  rw (Holds-load h, Holds-load k) (ground arith),
  is_zero-sub_ℕ b' ' x (λ e. l.0 (sym e)),
)
memcmp-is_prefix (x ∷ path) (y ∷ addr) {m} {p} {q} l h k = elim (Bool-cases (y == x)) [
  | inl same ↦
      let (z, ran, is) = memcmp-is_prefix path addr l.1 (Holds-tail h) (Holds-tail k) in
      (z, rw (Holds-load h, Holds-load k, same) ran, rw same is)
  | inr other ↦ (
    sub_ℕ y x,
    rw (Holds-load h, Holds-load k, other) refl,
    rw other (is_zero-sub_ℕ y x (ground arith)),
  )
]

-- The first test: the whole address.
pub bsame-address :
    (path addr : List ℕ) {m : Mem} (b : Bytes)
    → Lacks b' ' path
    → Holds m b.ptr (addr ++ b' ' ∷ [])
    → b.len ≡ length addr
    → (z : ℤ) × (bsame b (bs path) m ≡ ok z m)
      × (is_zero z ≡ (is_prefix path addr && length addr == length path))
unfolding bsame
bsame-address path addr {m} b l h n = elim (Bool-cases (length addr == length path)) [
  | inl same ↦
      let (z, ran, is) = memcmp-is_prefix path addr l h ((bs-Views {m = m} path).holds) in
      let size : length path ≡ length addr = ground arith in
      (
        z,
        rw (n, same) (subst (λ k. memcmp k b.ptr (bs path).ptr m ≡ ok z m) size ran),
        rw (same, is) (ground arith),
      )
  | inr other ↦ (negsuc 0, rw (n, other) refl, rw other (ground arith))
]

slice_of_start : (b : Bytes) (n : ℕ) → 0 < b.len → 0 < n → n < 2 ^ 64 → bslice b 0 n ≡ view b.ptr n
unfolding bslice
slice_of_start b n some_bytes long small =
    let e : leb b.len 0 ≡ false = ground arith in
    let e' : ltb 0 n ≡ true = ground arith in
    rw (e, e', sub64_exact n 0 (omega arith) small, +p_zero b.ptr) (ap (view b.ptr) (omega arith))

slice_of_empty : (b : Bytes) (n : ℕ) → b.len ≡ 0 → bslice b 0 n ≡ view b.ptr 0
unfolding bslice
slice_of_empty b n empty = rw empty refl

-- The second test: as many bytes of the address as the path has.
pub bsame-slice :
    (path addr : List ℕ) {m : Mem} (b : Bytes)
    → Lacks b' ' path
    → Holds m b.ptr (addr ++ b' ' ∷ [])
    → b.len ≡ length addr
    → 1 < length path
    → length path < 2 ^ 64
    → (z : ℤ) × (bsame (bslice b 0 (length path)) (bs path) m ≡ ok z m)
      × (is_zero z ≡ is_prefix path addr)
unfolding bsame
bsame-slice [] addr b l h n long small = absurd (omega arith)
bsame-slice (x ∷ path) [] b l h n long small =
    let other : (0 == length (x ∷ path)) ≡ false = ground arith in
    (negsuc 0, rw (slice_of_empty b (length (x ∷ path)) n, other) refl, refl)
bsame-slice (x ∷ path) (y ∷ addr) {m} b l h n long small =
    let (z, ran, is) =
      memcmp-is_prefix (x ∷ path) (y ∷ addr) l h (bs-Views {m = m} (x ∷ path)).holds in
    let same : (length (x ∷ path) == length (x ∷ path)) ≡ true = ground arith in
    (z, rw (slice_of_start b (length (x ∷ path)) (omega arith) (omega arith) small, same) ran, is)
