-- ===== src/Bytes/Print.antt =====
-- src/bytes.c: `bprintf`. Of C's formats the program uses text, `%d`, `%ld` and `%zd` (a number),
-- and `%*s` (a C string, with spaces in front up to a width). `vsnprintf` is C's: it writes as much
-- of the text as fits with a NUL behind it, and returns the length of the whole text.
pub mod Cstring
pub mod Page
pub mod Shown
pub mod Written
use sleepytext.Prelude.{
  ℕ, zero, suc, ◌+◌, ◌-◌, ◌/◌, ◌%◌, List, [], ◌∷◌, ◌++◌, ◌==◌, ltb, if◌then◌else◌, length, take,
}
use sleepytext.Prelude.Int.{ℤ, pos, negsuc}
use sleepytext.Prelude.Words.{sub64}
use sleepytext.Memory.{Ptr, ◌+p◌, Action, pure, ◌>>=◌, ◌>>◌, load, store}
use sleepytext.Bytes.{Bytes, view, bfromstr}

pub data Piece : Type 0 where
  text : List ℕ → Piece
  number : ℤ → Piece
  padded : ℕ → Ptr → Piece

-- The digits of `n` in front of `acc`, for a number of as many digits as the fuel.
unfoldable pub show_digits : ℕ → ℕ → List ℕ → List ℕ
show_digits zero n acc = acc
show_digits (suc fuel) n acc =
    let shown = (b'0' + n % 10) ∷ acc in
    let more = show_digits fuel (n / 10) shown in if ltb n 10 then shown else more

-- A number of the program has at most 20 digits.
unfoldable pub show_int : ℤ → List ℕ
unfolding show_digits
show_int (pos n) = show_digits 20 n []
show_int (negsuc n) = b'-' ∷ show_digits 20 (n + 1) []

unfoldable pub read_bytes : ℕ → Ptr → Action (List ℕ)
read_bytes zero p = pure []
read_bytes (suc n) p = do c ← load p; rest ← read_bytes n (p +p 1); pure (c ∷ rest)

unfoldable pub write_bytes : Ptr → List ℕ → Action (Unit {0})
write_bytes p [] = pure tt
write_bytes p (c ∷ cs) = do store p c; write_bytes (p +p 1) cs

-- The string up to its NUL.
unfoldable pub c_string : Ptr → Action (List ℕ)
unfolding bfromstr read_bytes
c_string p = do b ← bfromstr p; read_bytes b.len b.ptr

unfoldable pub spaces : ℕ → List ℕ
spaces zero = []
spaces (suc n) = b' ' ∷ spaces n

print_piece : Piece → Action (List ℕ)
print_piece (text s) = pure s
print_piece (number n) = pure (show_int n)
print_piece (padded width p) = do s ← c_string p; pure (spaces (width - length s) ++ s)

unfoldable pub print_pieces : List Piece → Action (List ℕ)
unfolding print_piece show_int c_string spaces
print_pieces [] = pure []
print_pieces (x ∷ xs) = do s ← print_piece x; rest ← print_pieces xs; pure (s ++ rest)

unfoldable pub vsnprintf : Ptr → ℕ → List Piece → Action ℕ
unfolding print_pieces write_bytes
vsnprintf p size pieces = do
  s ← print_pieces pieces
  (if size == 0 then pure tt else write_bytes p (take (size - 1) s ++ 0 ∷ []))
  pure (length s)

pub record BPair : Type 0 where
  pub first : Bytes
  pub second : Bytes

-- The lengths are not checked: the second view wraps where the text did not fit.
unfoldable pub bprintf : Bytes → List Piece → Action BPair
unfolding vsnprintf
bprintf b pieces = do
  n ← vsnprintf b.ptr b.len pieces
  pure (record { first = view b.ptr n; second = view (b.ptr +p n) (sub64 b.len n) })
