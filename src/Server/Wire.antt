-- ===== src/Server/Wire.antt =====
-- src/server.c: the numbers of a feed's payload, and the path of a branch's file.
pub mod Numbers
pub mod Path
use sleepytext.Prelude.{ℕ, ◌+◌, ◌*◌, ◌/◌, ◌%◌, ◌^◌, List, [], ◌∷◌}
use sleepytext.Prelude.Int.{pos}
use sleepytext.Prelude.Text.{codes}
use sleepytext.Prelude.Words.{to_int}
use sleepytext.Memory.{Ptr, ◌+p◌, Action, pure, ◌>>=◌, ◌>>◌, load}
use sleepytext.Bytes.{Bytes, balloc}
use sleepytext.Bytes.Print.{text, number, bprintf, write_bytes}

-- The four bytes of a `uint32_t` in memory, the lowest first.
abbrev pub le32 : ℕ → List ℕ
le32 v = (v % 256) ∷ (v / 2 ^ 8 % 256) ∷ (v / 2 ^ 16 % 256) ∷ (v / 2 ^ 24 % 256) ∷ []

-- `ntohl(*p)`: the first byte is the highest one.
unfoldable pub load_net32 : Ptr → Action ℕ
load_net32 p = do
  b0 ← load p
  b1 ← load (p +p 1)
  b2 ← load (p +p 2)
  b3 ← load (p +p 3)
  pure (b0 * 2 ^ 24 + b1 * 2 ^ 16 + b2 * 2 ^ 8 + b3)

-- `i->field = ntohl(i->field)`, with the new value of the field.
unfoldable pub ntohl_in_place : Ptr → Action ℕ
unfolding load_net32
ntohl_in_place p = do v ← load_net32 p; write_bytes p (le32 v); pure v

-- `%d` prints the number as an `int`.
unfoldable pub branch_path : ℕ → Action Bytes
branch_path id = do
  path ← balloc 256
  bprintf path (text (codes "./branches/") ∷ number (to_int (pos id)) ∷ [])
  pure path
