-- ===== src/Bytes/Scan.antt =====
-- src/bytes.c: `bscanf`. The C library's `vfscanf`, at the formats of the program, is a parameter: the
-- numbers that it converts. The stream that `fmemopen` makes over the bytes is never closed.
use sleepytext.Prelude.{ℕ, List}
use sleepytext.Prelude.Int.{ℤ}
use sleepytext.Memory.{Action, pure, ◌>>=◌}
use sleepytext.Bytes.{Bytes}
use sleepytext.Bytes.Print.{read_bytes}

unfoldable pub bscanf : (List ℕ → List ℤ) → Bytes → Action (List ℤ)
bscanf scan b = do bytes ← read_bytes b.len b.ptr; pure (scan bytes)
