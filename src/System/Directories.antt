-- ===== src/System/Directories.antt =====
-- The calls on a directory, and those of SQLite that open and close the database and its statements. A
-- statement is `sqlite3_stmt *`, a number here.
use sleepytext.Prelude.{ℕ, Bool, Option, List}
use sleepytext.Prelude.Int.{ℤ}
use sleepytext.System.{Io}

pub record Directories (W : Type 0) : Type 0 where
  -- `opendir(path)` with `readdir` up to its end: for each entry, whether it is a regular file
  pub entries : List ℕ → W → Option (List Bool) × W

pub record Database (W : Type 0) : Type 0 where
  pub open_database : List ℕ → W → ℤ × W
  -- `sqlite3_prepare_v2(db, sql, -1, &statement, 0)`, with the number of the global variable
  pub prepare : List ℕ → W → ℤ × W
  pub interrupt : W → Unit {0} × W
  -- Where the behaviour is undefined, these two may end in a fault.
  pub finalize : Option ℕ → Io W ℤ
  -- `sqlite3_next_stmt(db, statement)`
  pub next_stmt : Option ℕ → Io W (Option ℕ)
  pub close_database : W → ℤ × W
