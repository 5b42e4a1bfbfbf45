-- ===== src/Server/Branches.antt =====
-- src/server.c: the callbacks `branches` and `newbranch`.
pub mod Inserted
pub mod Listed
use sleepytext.Prelude.{ℕ, zero, suc, none, some, List, [], ◌∷◌, not, get_elem?, if◌then◌else◌}
use sleepytext.Prelude.Int.{ℤ, is_zero}
use sleepytext.Prelude.Text.{codes}
use sleepytext.Prelude.Words.{sub64}
use sleepytext.Memory.{◌+p◌}
use sleepytext.Bytes.{Bytes, view, balloc}
use sleepytext.Bytes.Print.{Piece, text, number, bprintf}
use sleepytext.Bytes.Scan.{bscanf}
use sleepytext.Http.{HttpRequest, HttpRawResponse, http_result, http_ok, http_bad_request}
use sleepytext.Server.Session.{getuserid}
use sleepytext.Server.Sql.{Sqlite, selectbranches, insertbranch, sqlite_row, sqlite_done}
use sleepytext.Prelude.Int.{same_int}
use sleepytext.System.{Io, ◌>>=◌, ◌>>◌, return, local, world, unfinished}

-- A row of the table of branches: id, parent, position and document.
pub record BranchRow : Type 0 where
  pub id : ℤ
  pub parent : ℤ
  pub place : ℤ
  pub document : ℤ

-- `"%ld %ld %ld %ld\n"`
abbrev pub branch_line : BranchRow → List Piece
branch_line row =
    number row.id
    ∷ text (codes " ")
    ∷ number row.parent
    ∷ text (codes " ")
    ∷ number row.place
    ∷ text (codes " ")
    ∷ number row.document
    ∷ text (codes "\n")
    ∷ []

module _ {W : Type 0} (db : Sqlite W) where
  -- The columns of the current row.
  unfoldable pub branch_row : Io W BranchRow
  branch_row = do
    id ← world (db.column_int64 selectbranches 0)
    parent ← world (db.column_int64 selectbranches 1)
    place ← world (db.column_int64 selectbranches 2)
    document ← world (db.column_int64 selectbranches 3)
    return (record { id = id; parent = parent; place = place; document = document })

  -- `resp` is the room that is left. A line that does not fit makes its length wrap.
  unfoldable pub branches_loop : ℕ → Bytes → Io W Bytes
  branches_loop zero resp = λ m w. unfinished
  branches_loop (suc fuel) resp = do
    code ← world (db.step selectbranches)
    if same_int code sqlite_row
        then (do
          row ← branch_row
          printed ← local (bprintf resp (branch_line row))
          let n = printed.first.len
          branches_loop fuel (view (resp.ptr +p n) (sub64 resp.len n)))
        else return resp

  -- What is listed once the user is known.
  unfoldable pub list_branches : ℕ → ℤ → Io W HttpRawResponse
  unfolding branches_loop
  list_branches fuel user = if is_zero user then return (http_result http_bad_request) else (do
    world (db.reset selectbranches)
    world (db.bind_int64 selectbranches 1 user)
    mem ← local (balloc 4096)
    resp ← branches_loop fuel mem
    return (record (http_result http_ok) { payload = view mem.ptr (sub64 mem.len resp.len) }))

  unfoldable pub http_callback_branches : ℕ → HttpRequest → Io W HttpRawResponse
  unfolding list_branches
  http_callback_branches fuel request = do
    user ← getuserid db request.header
    list_branches fuel user

-- A variable keeps what stands on the stack if no number was converted for it.
abbrev pub scanned : (ℕ → ℤ) → List ℤ → ℕ → ℤ
scanned stack numbers i = elim (get_elem? numbers i) [ none ↦ stack i | some n ↦ n ]

module _ {W : Type 0} (db : Sqlite W) (scan : List ℕ → List ℤ) (stack : ℕ → ℤ) where
  unfoldable pub insert_branch : ℤ → Bytes → Io W HttpRawResponse
  unfolding bscanf
  insert_branch user payload = if is_zero user then return (http_result http_bad_request) else (do
    numbers ← local (bscanf scan payload)
    world (db.reset insertbranch)
    world (db.bind_int64 insertbranch 1 (scanned stack numbers 0))
    world (db.bind_int64 insertbranch 2 (scanned stack numbers 1))
    world (db.bind_int64 insertbranch 3 (scanned stack numbers 2))
    world (db.bind_int64 insertbranch 4 user)
    code ← world (db.step insertbranch)
    if not (same_int code sqlite_done)
        then return (http_result http_bad_request)
        else return (http_result http_ok))

  unfoldable pub http_callback_newbranch : HttpRequest → Io W HttpRawResponse
  unfolding insert_branch
  http_callback_newbranch request = do
    user ← getuserid db request.header
    insert_branch user request.payload
