-- ===== src/Server/Protocol/Calls.antt =====
-- src/server.c and src/sqlite3.h: what each call does to the stage of its statement.
use sleepytext.Prelude.{ℕ, ◌≡◌, Bool, true, false, not, if◌then◌else◌, arith}
use sleepytext.Prelude.Int.{ℤ, same_int}
use sleepytext.System.{Io, return, world}
use sleepytext.System.Ensures.{Ensures, Ensures-world, Ensures-return, Ensures-weaken}
use sleepytext.Prelude.{List}
use sleepytext.Server.Sql.{Statement, Sqlite, sqlite_row}
use sleepytext.Server.Protocol.{
  Stage, ready, row, finished, is_finished, number_of, Watched, watched,
}

-- No call came out of order so far.
abbrev pub Obeyed : {W : Type 0} → Watched W → Type 0
Obeyed w = w.misused ≡ false

-- ... and this statement is at a known stage.
abbrev pub At : {W : Type 0} → Statement → Stage → Watched W → Type 0
At st s w = (w.misused ≡ false) × (w.stage (number_of st) ≡ s)

-- ... and the last step of this statement, if any since the reset, answered with a row.
abbrev pub Steppable : {W : Type 0} → Statement → Watched W → Type 0
Steppable st w = (w.misused ≡ false) × (is_finished (w.stage (number_of st)) ≡ false)

module _ {W : Type 0} (st : Statement) (w : Watched W) where
  pub ready-Steppable : At st ready w → Steppable st w
  ready-Steppable p = ground arith

  pub row-Steppable : At st row w → Steppable st w
  row-Steppable p = ground arith

module _ {W : Type 0} (strict : Bool) (db : Sqlite W) where
  pub reset-At :
      (st : Statement) → Ensures Obeyed (world ((watched strict db).reset st)) (λ r. At st ready)
  unfolding watched
  reset-At st = Ensures-world (λ w p. ground arith)

  pub bind_int64-At :
      (st : Statement) (n : ℕ) (v : ℤ)
      → Ensures (At st ready) (world ((watched strict db).bind_int64 st n v)) (λ r. At st ready)
  unfolding watched
  bind_int64-At st n v = Ensures-world (λ w p. ground arith)

  -- The stage behind a step depends on its answer.
  abbrev pub Stepped : Statement → ℤ → Watched W → Type 0
  Stepped st code = At st (if same_int code sqlite_row then row else finished)

  pub step-Stepped :
      (st : Statement) → Ensures (Steppable st) (world ((watched strict db).step st)) (Stepped st)
  unfolding watched
  step-Stepped st = Ensures-world (λ w p. ground arith)

  pub step-At :
      (st : Statement) → Ensures (At st ready) (world ((watched strict db).step st)) (Stepped st)
  step-At st = Ensures-weaken (step-Stepped st) (λ w p. ready-Steppable st w p) (λ a w q. q)

  pub column_int-At :
      (st : Statement) (n : ℕ)
      → Ensures (At st row) (world ((watched strict db).column_int st n)) (λ r. At st row)
  unfolding watched
  column_int-At st n = Ensures-world (λ w p. ground arith)

  pub bind_text-At :
      (st : Statement) (n : ℕ) (v : List ℕ)
      → Ensures (At st ready) (world ((watched strict db).bind_text st n v)) (λ r. At st ready)
  unfolding watched
  bind_text-At st n v = Ensures-world (λ w p. ground arith)

  pub bind_blob-At :
      (st : Statement) (n : ℕ) (v : List ℕ)
      → Ensures (At st ready) (world ((watched strict db).bind_blob st n v)) (λ r. At st ready)
  unfolding watched
  bind_blob-At st n v = Ensures-world (λ w p. ground arith)

  pub column_int64-At :
      (st : Statement) (n : ℕ)
      → Ensures (At st row) (world ((watched strict db).column_int64 st n)) (λ r. At st row)
  unfolding watched
  column_int64-At st n = Ensures-world (λ w p. ground arith)

  pub column_blob-At :
      (st : Statement) (n : ℕ)
      → Ensures (At st row) (world ((watched strict db).column_blob st n)) (λ r. At st row)
  unfolding watched
  column_blob-At st n = Ensures-world (λ w p. ground arith)

-- The size of a column, where its form is not watched
pub column_bytes-At :
    {W : Type 0} (db : Sqlite W) (st : Statement) (n : ℕ)
    → Ensures (At st row) (world ((watched false db).column_bytes st n)) (λ r. At st row)
unfolding watched
column_bytes-At db st n = Ensures-world (λ w p. ground arith)

module _ {W A : Type 0} {Q : A → Watched W → Type 0} where
  pub forget :
      (st : Statement) (s : Stage) {io : Io (Watched W) A}
      → Ensures Obeyed io Q
      → Ensures (At st s) io Q
  forget st s e = Ensures-weaken e (λ w p. p.0) (λ a w q. q)

  -- The answer of a step is tested for a row, in either sense.
  pub if_row :
      (st : Statement) (b : Bool) {x y : Io (Watched W) A}
      → Ensures (At st row) x Q
      → Ensures Obeyed y Q
      → Ensures (At st (if b then row else finished)) (if b then x else y) Q
  if_row st true h k = h
  if_row st false h k = forget st finished k

  pub if_not_row :
      (st : Statement) (b : Bool) {x y : Io (Watched W) A}
      → Ensures Obeyed x Q
      → Ensures (At st row) y Q
      → Ensures (At st (if b then row else finished)) (if not b then x else y) Q
  if_not_row st true h k = k
  if_not_row st false h k = forget st finished h

module _ {W A : Type 0} where
  pub keeps : (a : A) → Ensures {W = Watched W} Obeyed (return a) (λ r. Obeyed)
  keeps a = Ensures-return (λ w p. p)

  pub drops :
      (st : Statement) (s : Stage) {io : Io (Watched W) A}
      → Ensures (At st s) io (λ r. At st s)
      → Ensures (At st s) io (λ r. Obeyed)
  drops st s e = Ensures-weaken e (λ w p. p) (λ a w q. q.0)
