-- ===== src/Server/Protocol/Early.antt =====
-- src/server.c and src/sqlite3.h: `login` asks for the size of the password before it asks for the
-- password as a blob, against the documented order.
use sleepytext.Prelude.{ℕ, ◌≡◌, refl, Bool, true, false, ◌||◌, not, if◌then◌else◌, arith}
use sleepytext.Prelude.Int.{ℤ, same_int, is_zero}
use sleepytext.Bytes.{Bytes, view, balloc, bfind, bsame}
use sleepytext.Bytes.Print.{bprintf}
use sleepytext.Http.{to_size, HttpRequest, http_result, http_bad_request}
use sleepytext.Memory.{Mem}
use sleepytext.Server.Protocol.{Watched, watched, after_step, is_row, number_of}
use sleepytext.Server.Sql.{
  Statement, Sqlite, selectpassword, updatelastseen, sqlite_row, bound_text, pointer_of,
}
use sleepytext.Server.Users.{
  line_break, cookie_text, logged_in, check_password, http_callback_login,
}
use sleepytext.System.{Io, world, local}
use sleepytext.System.Ensures.{
  Ensures, Ensures-any, Ensures-bind, Ensures-then, Ensures-local, Ensures-world, Ensures-return,
  Ensures-if, Ensures-weaken, Post,
}

-- A call came out of order.
abbrev pub Misused : {W : Type 0} → Watched W → Type 0
Misused w = w.misused ≡ true

abbrev password_row : {W : Type 0} → Watched W → Bool
password_row w = is_row (w.stage (number_of selectpassword))

-- The statement for the password has no row, or a call came out of order.
abbrev pub RowMisused : {W : Type 0} → Watched W → Type 0
RowMisused w = (not (password_row w) || w.misused) ≡ true

-- The statement has a row or not, and its first column was not brought into the form of a blob.
abbrev Unformed : {W : Type 0} → Bool → Watched W → Type 0
Unformed b w = (password_row w ≡ b) × (w.formed (number_of selectpassword) 0 ≡ false)

module _ {W A : Type 0} where
  if_password :
      (b : Bool) {x y : Io (Watched W) A} {Q : A → Watched W → Type 0}
      → Ensures (Unformed false) x Q
      → Ensures (Unformed true) y Q
      → Ensures (Unformed b) (if not b then x else y) Q
  if_password true h k = k
  if_password false h k = h

  weaken_row :
      {P : Watched W → Type 0} {io : Io (Watched W) A}
      → Ensures P io (λ r. Misused)
      → Ensures P io (λ r. RowMisused)
  weaken_row e = Ensures-weaken e (λ w p. p) (λ a w q. ground arith)

step_row :
    {W : Type 0} (b : Bool) (w : Watched W) (i : W) → Unformed b (after_step selectpassword b i w)
step_row true w i = (refl, refl)
step_row false w i = (refl, refl)

module _ {W : Type 0} (db : Sqlite W) where
  reset-Misused :
      (st : Statement) → Ensures Misused (world ((watched true db).reset st)) (λ r. Misused)
  unfolding watched
  reset-Misused st = Ensures-world (λ w p. ground arith)

  bind_int64-Misused :
      (st : Statement) (n : ℕ) (v : ℤ)
      → Ensures Misused (world ((watched true db).bind_int64 st n v)) (λ r. Misused)
  unfolding watched
  bind_int64-Misused st n v = Ensures-world (λ w p. ground arith)

  step-Misused :
      (st : Statement) → Ensures Misused (world ((watched true db).step st)) (λ r. Misused)
  unfolding watched
  step-Misused st = Ensures-world (λ w p. ground arith)

  column_int64-Misused :
      (st : Statement) (n : ℕ)
      → Ensures Misused (world ((watched true db).column_int64 st n)) (λ r. Misused)
  unfolding watched
  column_int64-Misused st n = Ensures-world (λ w p. ground arith)

  column_blob-Misused :
      (st : Statement) (n : ℕ)
      → Ensures Misused (world ((watched true db).column_blob st n)) (λ r. Misused)
  unfolding watched
  column_blob-Misused st n = Ensures-world (λ w p. ground arith)

  step-Unformed :
      Ensures
        (λ w. Unit {0})
        (world ((watched true db).step selectpassword))
        (λ code. Unformed (same_int code sqlite_row))
  unfolding watched
  step-Unformed = Ensures-world (λ w p.
      step_row (same_int (db.step selectpassword w.inner).0 sqlite_row) w
        (db.step selectpassword w.inner).1)

  column_bytes-Misused :
      Ensures
        (Unformed true)
        (world ((watched true db).column_bytes selectpassword 0))
        (λ size. Misused)
  unfolding watched
  column_bytes-Misused = Ensures-world (λ w p. ground arith)

  logged_in-Misused :
      (session : ℤ) → Ensures Misused (logged_in (watched true db) session) (λ r. Misused)
  unfolding logged_in watched
  logged_in-Misused session = Ensures-then (reset-Misused updatelastseen) (
      Ensures-then (bind_int64-Misused updatelastseen 1 session) (
        Ensures-then {Q = Misused} (step-Misused updatelastseen) (
          Ensures-bind (Ensures-local (balloc 128)) λ mem.
            Ensures-bind (Ensures-local (bprintf mem (cookie_text session)))
              λ printed. Ensures-return (λ w p. p))))

  check_password-RowMisused :
      (user password : Bytes)
      → Ensures (λ w. Unit {0}) (check_password (watched true db) user password) (λ r. RowMisused)
  unfolding check_password
  check_password-RowMisused user password =
      Ensures-then {Q = λ w. Unit {0}}
        (Ensures-any (world ((watched true db).reset selectpassword)))
        (Ensures-bind {Q = λ a w. Unit {0}} (Ensures-any (local (bound_text user))) λ name.
          Ensures-then {Q = λ w. Unit {0}}
            (Ensures-any (world ((watched true db).bind_text selectpassword 1 name)))
            (Ensures-bind step-Unformed λ code.
              if_password (same_int code sqlite_row)
                (Ensures-return {a = http_result http_bad_request} (λ w p. ground arith))
                (weaken_row (
                  Ensures-bind column_bytes-Misused λ size.
                    Ensures-bind (column_blob-Misused selectpassword 0) λ blob.
                      Ensures-bind (column_int64-Misused selectpassword 1) λ session.
                        Ensures-bind
                          (Ensures-local (bsame password (view (pointer_of blob) (to_size size))))
                          λ same.
                            Ensures-if (is_zero same) (logged_in-Misused session)
                              (Ensures-return {a = http_result http_bad_request} (λ w p. p))))))

  login-RowMisused :
      (request : HttpRequest)
      → Ensures (λ w. Unit {0}) (http_callback_login (watched true db) request) (λ r. RowMisused)
  unfolding http_callback_login
  login-RowMisused request =
      Ensures-bind {Q = λ a w. Unit {0}} (Ensures-any (local (bfind request.payload line_break)))
        λ f. check_password-RowMisused f.before f.after

  -- Wherever `login` comes to its end, and SQLite has given a row for the user, a call came out of the
  -- documented order: the size of the password is asked for, as the source writes the two calls, before
  -- the password as a blob.
  pub http_callback_login-RowMisused :
      (request : HttpRequest) (m : Mem) (w : Watched W)
      → Post (λ a. RowMisused) (http_callback_login (watched true db) request m w)
  http_callback_login-RowMisused request m w = (login-RowMisused request).run m w tt
