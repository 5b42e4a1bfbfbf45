-- ===== src/System/Files.antt =====
-- The calls of the operating system on files. A descriptor is an `int`; -1 stands for a
-- failure.
use sleepytext.Prelude.{ℕ, ◌==◌, Bool, false, Option, List}
use sleepytext.Prelude.Int.{ℤ, pos, negsuc}

pub record Files (W : Type 0) : Type 0 where
  -- `open(path, O_APPEND | O_CREAT | O_RDWR)`
  pub open_append : List ℕ → W → ℤ × W
  -- `write(file, bytes)`, whose result the program does not read
  pub write_file : ℤ → List ℕ → W → Unit {0} × W
  -- `open(path, O_RDONLY)`
  pub open_read : List ℕ → W → ℤ × W
  -- `read(file, buffer, count)`: the bytes that were read, and nothing where the call fails
  pub read_file : ℤ → ℕ → W → Option (List ℕ) × W

abbrev pub is_minus_one : ℤ → Bool
is_minus_one (pos n) = false
is_minus_one (negsuc n) = n == 0
