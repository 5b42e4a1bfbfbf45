-- ===== src/Start/Prepared.antt =====
-- src/sqlite3.h: a database connection and its prepared statements, as the documentation describes
-- them. What is undefined there is a fault.
use sleepytext.Prelude.{
  ℕ, ◌+◌, Bool, true, false, ◌||◌, ◌==◌, Option, none, some, List, [], ◌∷◌, ◌++◌, if◌then◌else◌,
}
use sleepytext.Server.Sql.{ResultCode, code_busy, result_code, sqlite_ok}
use sleepytext.System.{Io, return, crashed}
use sleepytext.System.Directories.{Database}
use sleepytext.Prelude.Int.{ℤ}

-- `statements` are those that are prepared and not finalized, `outcome` the result of the last
-- evaluation of each; `is_running` tells whether one of them is being evaluated.
pub record Connection : Type 0 where
  pub statements : List ℕ
  pub next : ℕ
  pub outcome : ℕ → ResultCode
  pub is_running : Bool
  pub is_interrupted : Bool
  pub is_open : Bool

abbrev pub is_in : ℕ → List ℕ → Bool
is_in p [] = false
is_in p (q ∷ qs) = (p == q) || is_in p qs

abbrev pub without : ℕ → List ℕ → List ℕ
without p [] = []
without p (q ∷ qs) = let rest = without p qs in if p == q then rest else q ∷ rest

abbrev first_of : List ℕ → Option ℕ
first_of [] = none
first_of (q ∷ qs) = some q

-- The one behind `p`
abbrev after : ℕ → List ℕ → Option ℕ
after p [] = none
after p (q ∷ qs) = let later = after p qs in if p == q then first_of qs else later

-- `sqlite3_finalize`: a harmless no-op on NULL; the use of a statement that was finalized is a fault.
unfoldable pub finalize_statement : Option ℕ → Io Connection ℤ
finalize_statement none = return sqlite_ok
finalize_statement (some p) = λ m c.
    if is_in p c.statements
    then return (result_code (c.outcome p)) m (record c { statements = without p c.statements })
    else crashed

-- `sqlite3_next_stmt`: the first statement for NULL, and NULL behind the last one.
unfoldable pub next_statement : Option ℕ → Io Connection (Option ℕ)
next_statement none = λ m c. return (first_of c.statements) m c
next_statement (some p) =
    λ m c. if is_in p c.statements then return (after p c.statements) m c else crashed

-- `sqlite3_interrupt`: a no-op where no statement is running.
abbrev pub interrupt_running : Connection → Unit {0} × Connection
interrupt_running c = (tt, record c { is_interrupted = c.is_running })

-- `sqlite3_close`: the connection stays open while a statement is not finalized.
abbrev pub close_connection : Connection → ℤ × Connection
close_connection c = elim c.statements [
  | [] ↦ (sqlite_ok, record c { is_open = false })
  | p ∷ ps ↦ (result_code code_busy, c)
]

-- `sqlite3_open`: the handle is usually given also where there is an error; the exception, that there
-- is no memory for it, is left out. `opening` is what SQLite finds wrong with a path.
abbrev pub open_connection : (List ℕ → Option ResultCode) → List ℕ → Connection → ℤ × Connection
open_connection opening path c = (
  elim (opening path) [ none ↦ sqlite_ok | some error ↦ result_code error ],
  record c { is_open = true },
)

module _ (opening refusal : List ℕ → Option ResultCode) where
  -- `sqlite3_prepare_v2`: a new statement, or none with an error code. `refusal` is what SQLite finds
  -- wrong with a text.
  abbrev pub prepare_statement : List ℕ → Connection → ℤ × Connection
  prepare_statement sql c = elim (refusal sql) [
    | none ↦ (sqlite_ok, record c { statements = c.statements ++ (c.next ∷ []); next = c.next + 1 })
    | some error ↦ (result_code error, c)
  ]

  unfoldable pub connection : Database Connection
  connection = record {
    open_database = open_connection opening;
    prepare = prepare_statement;
    interrupt = interrupt_running;
    finalize = finalize_statement;
    next_stmt = next_statement;
    close_database = close_connection;
  }
