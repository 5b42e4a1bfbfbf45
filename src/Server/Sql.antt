-- ===== src/Server/Sql.antt =====
-- src/server.c and src/sqlite3.h: the prepared statements of the server, and the calls of SQLite that
-- the callbacks make on them.
use sleepytext.Prelude.{ℕ, ◌==◌, ◌≤◌, Option, none, some, List, [], length, if◌then◌else◌}
use sleepytext.Prelude.Int.{ℤ, pos, negsuc}
use sleepytext.Prelude.Words.{to_int, int_max}
use sleepytext.Memory.{Ptr, null_ptr, static, Action, crash}
use sleepytext.Bytes.{Bytes}
use sleepytext.Bytes.Print.{read_bytes, c_string, show_int}

-- The global variables that hold them.
pub data Statement : Type 0 where
  selectpassword selectsession updatepassword updatelogin updatelastseen : Statement
  insertuser selectuserid insertbranch selectbranches : Statement

-- The result codes of SQLite.
pub data ResultCode : Type 0 where
  code_ok code_error code_internal code_perm code_abort code_busy code_locked code_nomem
        code_readonly :
      ResultCode
  code_interrupt code_ioerr code_corrupt code_notfound code_full code_cantopen code_protocol
        code_empty code_schema :
      ResultCode
  code_toobig code_constraint code_mismatch code_misuse code_nolfs code_auth code_format code_range
        code_notadb :
      ResultCode
  code_row code_done : ResultCode

abbrev pub result_code : ResultCode → ℤ
result_code code_ok = pos 0
result_code code_error = pos 1
result_code code_internal = pos 2
result_code code_perm = pos 3
result_code code_abort = pos 4
result_code code_busy = pos 5
result_code code_locked = pos 6
result_code code_nomem = pos 7
result_code code_readonly = pos 8
result_code code_interrupt = pos 9
result_code code_ioerr = pos 10
result_code code_corrupt = pos 11
result_code code_notfound = pos 12
result_code code_full = pos 13
result_code code_cantopen = pos 14
result_code code_protocol = pos 15
result_code code_empty = pos 16
result_code code_schema = pos 17
result_code code_toobig = pos 18
result_code code_constraint = pos 19
result_code code_mismatch = pos 20
result_code code_misuse = pos 21
result_code code_nolfs = pos 22
result_code code_auth = pos 23
result_code code_format = pos 24
result_code code_range = pos 25
result_code code_notadb = pos 26
result_code code_row = pos 100
result_code code_done = pos 101

-- The codes that the program reads.
abbrev pub sqlite_ok : ℤ
sqlite_ok = result_code code_ok

abbrev pub sqlite_row : ℤ
sqlite_row = result_code code_row

abbrev pub sqlite_done : ℤ
sqlite_done = result_code code_done

-- A value of SQLite. A floating point number is given by its ASCII rendering.
pub data SqlValue : Type 0 where
  sql_integer : ℤ → SqlValue
  sql_float : List ℕ → SqlValue
  sql_text : List ℕ → SqlValue
  sql_blob : List ℕ → SqlValue
  sql_null : SqlValue

-- The bytes where a blob is asked for: nothing for NULL, the ASCII rendering of a number.
abbrev pub blob_of : SqlValue → List ℕ
blob_of (sql_integer n) = show_int n
blob_of (sql_float rendering) = rendering
blob_of (sql_text bytes) = bytes
blob_of (sql_blob bytes) = bytes
blob_of sql_null = []

-- The number of bytes of the value as a text or a blob
abbrev pub size_of : SqlValue → ℕ
size_of value = length (blob_of value)

-- What `sqlite3_column_blob` points at: the bytes of the value, and NULL where there are none.
abbrev pub blob_pointer : SqlValue → Option (List ℕ)
blob_pointer value = let bytes = blob_of value in if length bytes == 0 then none else some bytes

-- What `sqlite3_column_bytes` and `sqlite3_column_blob` may answer, one behind the other, for a column
-- with this value, and the bytes that the two give: those of the value, or none where the size is the
-- default of a memory allocation error. A NULL pointer beside a size that is not 0 is left out.
pub data ColumnAnswer (value : SqlValue) : ℤ → Option (List ℕ) → List ℕ → Type 0 where
  delivered :
      size_of value ≤ int_max
      → ColumnAnswer value (pos (size_of value)) (blob_pointer value) (blob_of value)
  no_size : (blob : Option (List ℕ)) → ColumnAnswer value (pos 0) blob []

-- The calls on a statement. A value is bound to a parameter, the first of which has the number 1; the
-- columns of the current row are numbered from 0.
pub record Sqlite (W : Type 0) : Type 0 where
  pub reset : Statement → W → ℤ × W
  pub bind_int64 : Statement → ℕ → ℤ → W → ℤ × W
  pub bind_text : Statement → ℕ → List ℕ → W → ℤ × W
  pub bind_blob : Statement → ℕ → List ℕ → W → ℤ × W
  pub step : Statement → W → ℤ × W
  pub column_int : Statement → ℕ → W → ℤ × W
  pub column_int64 : Statement → ℕ → W → ℤ × W
  pub column_bytes : Statement → ℕ → W → ℤ × W
  -- NULL, or the bytes that the pointer points at, which belong to SQLite
  pub column_blob : Statement → ℕ → W → Option (List ℕ) × W

-- The text that `sqlite3_bind_text` is given by a pointer and an `int`: a negative length asks for the
-- bytes up to the first NUL. The program steps the statement before it changes them.
unfoldable pub bound_text : Bytes → Action (List ℕ)
bound_text b = elim (to_int (pos b.len)) [ pos n ↦ read_bytes n b.ptr | negsuc n ↦ c_string b.ptr ]

-- For `sqlite3_bind_blob` a negative length is undefined.
unfoldable pub bound_blob : Bytes → Action (List ℕ)
bound_blob b = elim (to_int (pos b.len)) [ pos n ↦ read_bytes n b.ptr | negsuc n ↦ crash ]

-- The pointer that `sqlite3_column_blob` answers
abbrev pub pointer_of : Option (List ℕ) → Ptr
pointer_of none = null_ptr
pointer_of (some bytes) = record { block = static bytes; off = 0 }
