-- ===== src/Bytes/Streams.antt =====
-- src/bytes.c: views written to descriptors and read from them.
use sleepytext.Prelude.{◌-◌, ◌^◌, none, some, length, take}
use sleepytext.Prelude.Int.{ℤ, pos}
use sleepytext.Bytes.{Bytes}
use sleepytext.Bytes.Print.{read_bytes, write_bytes}
use sleepytext.System.{Io, ◌>>=◌, ◌>>◌, return, local, world}
use sleepytext.System.Files.{Files}

module _ {W : Type 0} (files : Files W) where
  -- `b.length = read(f, b.as_void, b.length)`: the -1 of a failure becomes the largest `size_t`.
  unfoldable pub read_view : ℤ → Bytes → Io W Bytes
  read_view file b = do
    answer ← world (files.read_file file b.len)
    elim answer [
      | none ↦ return (record b { len = 2 ^ 64 - 1 })
      | some text ↦ (do
        let text' = take b.len text
        local (write_bytes b.ptr text')
        return (record b { len = length text' }))
    ]

  unfoldable pub write_view : ℤ → Bytes → Io W (Unit {0})
  write_view file b = do bytes ← local (read_bytes b.len b.ptr); world (files.write_file file bytes)

  unfoldable pub bprint : Bytes → Io W (Unit {0})
  unfolding write_view
  bprint u = write_view (pos 1) u

  unfoldable pub berror : Bytes → Io W (Unit {0})
  unfolding write_view
  berror u = write_view (pos 2) u

  unfoldable pub bread : Bytes → Io W Bytes
  unfolding read_view
  bread mem = read_view (pos 0) mem
