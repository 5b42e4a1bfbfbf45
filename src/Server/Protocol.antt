-- ===== src/Server/Protocol.antt =====
-- src/sqlite3.h: the order in which its documentation lets a prepared statement be used. `watched` notes
-- in the world how far each statement has come, which columns of its row were brought into the form of
-- a blob, and whether a call came out of order. It is strict where it also counts the size of a column
-- that is asked for before the column was brought into that form.
use sleepytext.Prelude.{ℕ, ◌≡◌, refl, Bool, true, false, ◌==◌, ◌||◌, ◌&&◌, not, if◌then◌else◌}
use sleepytext.Prelude.Int.{same_int}
use sleepytext.Server.Sql.{
  Statement, selectpassword, selectsession, updatepassword, updatelogin, updatelastseen, insertuser,
  selectuserid, insertbranch, selectbranches, Sqlite, sqlite_row,
}
pub mod Calls
pub mod Early
pub mod Obeyed

-- `ready` was reset and not stepped since; `row` has a current row; `finished` answered otherwise.
pub data Stage : Type 0 where
  ready row finished : Stage

abbrev pub is_ready : Stage → Bool
is_ready ready = true
is_ready row = false
is_ready finished = false

abbrev pub is_row : Stage → Bool
is_row ready = false
is_row row = true
is_row finished = false

abbrev pub is_finished : Stage → Bool
is_finished ready = false
is_finished row = false
is_finished finished = true

abbrev pub number_of : Statement → ℕ
number_of selectpassword = 0
number_of selectsession = 1
number_of updatepassword = 2
number_of updatelogin = 3
number_of updatelastseen = 4
number_of insertuser = 5
number_of selectuserid = 6
number_of insertbranch = 7
number_of selectbranches = 8

pub record Watched (W : Type 0) : Type 0 where
  pub inner : W
  pub stage : ℕ → Stage
  pub formed : ℕ → ℕ → Bool
  pub misused : Bool

abbrev pub at_stage : (ℕ → Stage) → Statement → Stage → ℕ → Stage
at_stage stage st new n = if number_of st == n then new else stage n

module _ {W : Type 0} where
  -- `sqlite3_reset`
  abbrev pub after_reset : Statement → W → Watched W → Watched W
  after_reset st i w = record w { inner = i; stage = at_stage w.stage st ready }

  -- `sqlite3_bind_*`: a statement that was stepped after the last reset is SQLITE_MISUSE.
  abbrev pub after_bind : Statement → W → Watched W → Watched W
  after_bind st i w = record w {
    inner = i;
    misused = w.misused || not (is_ready (w.stage (number_of st)));
  }

  -- `sqlite3_step`: it should not be called again behind another answer than a row.
  abbrev pub after_step : Statement → Bool → W → Watched W → Watched W
  after_step st has_row i w = record {
    inner = i;
    formed = λ s n. if number_of st == s then false else w.formed s n;
    stage = at_stage w.stage st (if has_row then row else finished);
    misused = w.misused || is_finished (w.stage (number_of st));
  }

  -- `sqlite3_column_*`: only where the last step answered with a row.
  abbrev pub after_column : Statement → W → Watched W → Watched W
  after_column st i w = record w {
    inner = i;
    misused = w.misused || not (is_row (w.stage (number_of st)));
  }

  -- `sqlite3_column_blob` forces the column into the format of a blob.
  abbrev pub after_blob : Statement → ℕ → W → Watched W → Watched W
  after_blob st n i w = record (after_column st i w) {
    formed = λ s k. (number_of st == s && n == k) || w.formed s k;
  }

  -- `sqlite3_column_bytes`, which is to follow the call that forces the format.
  abbrev pub after_bytes : Bool → Statement → ℕ → W → Watched W → Watched W
  after_bytes strict st n i w = record (after_column st i w) {
    misused =
        w.misused
        || (not (is_row (w.stage (number_of st))) || (strict && not (w.formed (number_of st) n)));
  }

  unfoldable pub watched : Bool → Sqlite W → Sqlite (Watched W)
  watched strict db = record {
    reset = λ st w. let (r, i) = db.reset st w.inner in (r, after_reset st i w);
    bind_int64 = λ st n v w. let (r, i) = db.bind_int64 st n v w.inner in (r, after_bind st i w);
    bind_text = λ st n v w. let (r, i) = db.bind_text st n v w.inner in (r, after_bind st i w);
    bind_blob = λ st n v w. let (r, i) = db.bind_blob st n v w.inner in (r, after_bind st i w);
    step =
        λ st w. let (r, i) = db.step st w.inner in (r, after_step st (same_int r sqlite_row) i w);
    column_int = λ st n w. let (r, i) = db.column_int st n w.inner in (r, after_column st i w);
    column_int64 = λ st n w. let (r, i) = db.column_int64 st n w.inner in (r, after_column st i w);
    column_bytes =
        λ st n w. let (r, i) = db.column_bytes st n w.inner in (r, after_bytes strict st n i w);
    column_blob = λ st n w. let (r, i) = db.column_blob st n w.inner in (r, after_blob st n i w);
  }
