-- ===== src/Server/Protocol/Obeyed.antt =====
-- src/server.c: the callbacks use the prepared statements in the documented order.
use sleepytext.Prelude.{ℕ, zero, suc, ◌≡◌, Bool, true, false, not}
use sleepytext.Prelude.Int.{ℤ, pos, same_int, is_zero}
use sleepytext.Bytes.{Bytes}
use sleepytext.Http.{to_size, HttpRequest, HttpRawResponse, http_result, http_ok, http_bad_request}
use sleepytext.System.Ensures.{
  Ensures, Ensures-bind, Ensures-then, Ensures-local, Ensures-return, Ensures-if, Ensures-weaken,
}
use sleepytext.Prelude.{List}
use sleepytext.Bytes.{balloc, bfind, bsame}
use sleepytext.Bytes.Print.{bprintf}
use sleepytext.Server.Cookie.{cookie_session}
use sleepytext.Server.Sql.{
  Sqlite, sqlite_row, sqlite_done, selectuserid, selectpassword, updatelastseen, insertuser,
  selectbranches, insertbranch, bound_text, bound_blob, pointer_of,
}
use sleepytext.Server.Users.{
  line_break, cookie_text, logged_in, check_password, http_callback_login, insert_user,
  http_callback_user,
}
use sleepytext.Server.Branches.{
  branch_row, branches_loop, branch_line, list_branches, http_callback_branches, scanned,
  insert_branch, http_callback_newbranch,
}
use sleepytext.Bytes.{view}
use sleepytext.Bytes.Scan.{bscanf}
use sleepytext.Memory.{◌+p◌}
use sleepytext.Prelude.Words.{sub64}
use sleepytext.Server.Protocol.{row, Watched, watched}
use sleepytext.Server.Session.{user_of_session, getuserid}
use sleepytext.Server.Protocol.Calls.{
  Obeyed, At, Steppable, reset-At, bind_int64-At, bind_text-At, bind_blob-At, step-Stepped, step-At,
  column_int-At, column_int64-At, column_blob-At, column_bytes-At, forget, if_row, if_not_row,
  keeps, drops, ready-Steppable, row-Steppable,
}
use sleepytext.Memory.{Mem}
use sleepytext.System.Ensures.{Post}

abbrev refused : HttpRawResponse
refused = http_result http_bad_request

module _ {W : Type 0} (strict : Bool) (db : Sqlite W) where
  user_of_session-Obeyed :
      (session : ℤ) → Ensures Obeyed (user_of_session (watched strict db) session) (λ r. Obeyed)
  unfolding user_of_session
  user_of_session-Obeyed session = Ensures-then (reset-At strict db selectuserid) (
      Ensures-then (bind_int64-At strict db selectuserid 1 session) (
        Ensures-bind (step-At strict db selectuserid) λ code.
          if_not_row selectuserid (same_int code sqlite_row) (keeps (pos 0))
            (drops selectuserid row (column_int-At strict db selectuserid 0))))

  getuserid-Obeyed :
      (header : Bytes) → Ensures Obeyed (getuserid (watched strict db) header) (λ r. Obeyed)
  unfolding getuserid
  getuserid-Obeyed header =
      Ensures-bind (Ensures-local (cookie_session header)) user_of_session-Obeyed

  logged_in-Obeyed :
      (session : ℤ) → Ensures Obeyed (logged_in (watched strict db) session) (λ r. Obeyed)
  unfolding logged_in
  logged_in-Obeyed session = Ensures-then (reset-At strict db updatelastseen) (
      Ensures-then (bind_int64-At strict db updatelastseen 1 session) (
        Ensures-then (Ensures-weaken (step-At strict db updatelastseen) (λ w p. p) (λ a w q. q.0)) (
          (Ensures-bind (Ensures-local (balloc 128)) λ mem.
            Ensures-bind (Ensures-local (bprintf mem (cookie_text session))) λ printed. keeps _))))

  user-Obeyed :
      (request : HttpRequest)
      → Ensures Obeyed (http_callback_user (watched strict db) request) (λ r. Obeyed)
  unfolding http_callback_user insert_user
  user-Obeyed request = Ensures-bind (Ensures-local (bfind request.payload line_break)) λ f.
      Ensures-then (reset-At strict db insertuser) (
        Ensures-bind (Ensures-local (bound_text f.before)) λ name.
          Ensures-then (bind_text-At strict db insertuser 1 name) (
            Ensures-bind (Ensures-local (bound_blob f.after)) λ secret.
              Ensures-then (bind_blob-At strict db insertuser 2 secret) (
                Ensures-bind (step-At strict db insertuser) λ code. forget insertuser _ (
                  Ensures-if (not (same_int code sqlite_done)) (keeps refused)
                    (keeps (http_result http_ok))))))

  branch_row-At :
      Ensures (At selectbranches row) (branch_row (watched strict db)) (λ r. At selectbranches row)
  unfolding branch_row
  branch_row-At = Ensures-bind (column_int64-At strict db selectbranches 0) λ id.
      Ensures-bind (column_int64-At strict db selectbranches 1) λ parent.
        Ensures-bind (column_int64-At strict db selectbranches 2) λ place.
          Ensures-bind (column_int64-At strict db selectbranches 3) λ document.
            Ensures-return
              {a = record { id = id; parent = parent; place = place; document = document }}
              (λ w p. p)

  list_loop-Obeyed :
      (fuel : ℕ) (resp : Bytes)
      → Ensures
          (Steppable selectbranches)
          (branches_loop (watched strict db) fuel resp)
          (λ r. Obeyed)
  unfolding branches_loop
  list_loop-Obeyed zero resp = record { run = λ m w p. tt }
  list_loop-Obeyed (suc fuel) resp = Ensures-bind (step-Stepped strict db selectbranches) λ code.
      if_row selectbranches (same_int code sqlite_row)
        (Ensures-bind branch_row-At λ line.
          Ensures-bind (Ensures-local (bprintf resp (branch_line line))) λ printed.
            Ensures-weaken
              (list_loop-Obeyed fuel
                (view (resp.ptr +p printed.first.len) (sub64 resp.len printed.first.len)))
              (λ w p. row-Steppable selectbranches w p) (λ a w q. q))
        (keeps resp)

  branches-Obeyed :
      (fuel : ℕ) (request : HttpRequest)
      → Ensures Obeyed (http_callback_branches (watched strict db) fuel request) (λ r. Obeyed)
  unfolding http_callback_branches list_branches
  branches-Obeyed fuel request = Ensures-bind (getuserid-Obeyed request.header) λ user.
      Ensures-if (is_zero user) (keeps refused) (
        Ensures-then (reset-At strict db selectbranches) (
          Ensures-then (bind_int64-At strict db selectbranches 1 user) (
            Ensures-bind (Ensures-local (balloc 4096)) λ mem.
              Ensures-bind
                (Ensures-weaken (list_loop-Obeyed fuel mem)
                  (λ w p. ready-Steppable selectbranches w p) (λ a w q. q))
                λ resp. keeps _)))

  newbranch-Obeyed :
      (scan : List ℕ → List ℤ) (stack : ℕ → ℤ) (request : HttpRequest)
      → Ensures Obeyed
          (http_callback_newbranch (watched strict db) scan stack request)
          (λ r. Obeyed)
  unfolding http_callback_newbranch insert_branch
  newbranch-Obeyed scan stack request = Ensures-bind (getuserid-Obeyed request.header) λ user.
      Ensures-if (is_zero user) (keeps refused) (
        Ensures-bind (Ensures-local (bscanf scan request.payload)) λ numbers.
          Ensures-then (reset-At strict db insertbranch) (
            Ensures-then (bind_int64-At strict db insertbranch 1 (scanned stack numbers 0)) (
              Ensures-then (bind_int64-At strict db insertbranch 2 (scanned stack numbers 1)) (
                Ensures-then (bind_int64-At strict db insertbranch 3 (scanned stack numbers 2)) (
                  Ensures-then (bind_int64-At strict db insertbranch 4 user) (
                    Ensures-bind (step-At strict db insertbranch) λ code. forget insertbranch _ (
                      Ensures-if (not (same_int code sqlite_done)) (keeps refused)
                        (keeps (http_result http_ok)))))))))

module _ {W : Type 0} (db : Sqlite W) where
  check_password-Obeyed :
      (user password : Bytes)
      → Ensures Obeyed (check_password (watched false db) user password) (λ r. Obeyed)
  unfolding check_password
  check_password-Obeyed user password = Ensures-then (reset-At false db selectpassword) (
      Ensures-bind (Ensures-local (bound_text user)) λ name.
        Ensures-then (bind_text-At false db selectpassword 1 name) (
          Ensures-bind (step-At false db selectpassword) λ code.
            if_not_row selectpassword (same_int code sqlite_row) (keeps refused) (
              Ensures-bind (column_bytes-At db selectpassword 0) λ size.
                Ensures-bind (column_blob-At false db selectpassword 0) λ blob.
                  Ensures-bind (column_int64-At false db selectpassword 1) λ session.
                    forget selectpassword row (
                      Ensures-bind
                        (Ensures-local (bsame password (view (pointer_of blob) (to_size size))))
                        λ same.
                          Ensures-if (is_zero same) (logged_in-Obeyed false db session)
                            (keeps refused)))))

  login-Obeyed :
      (request : HttpRequest)
      → Ensures Obeyed (http_callback_login (watched false db) request) (λ r. Obeyed)
  unfolding http_callback_login
  login-Obeyed request =
      Ensures-bind (Ensures-local (bfind request.payload line_break))
        λ f. check_password-Obeyed f.before f.after

-- Whatever SQLite answers, `login`, `user`, `branches` and `newbranch` call it in the order that its
-- documentation asks for, but for the size of a column, which `login` may ask for too early: if no call
-- came out of order before one of them starts, none has where it ends. Each binds only to a statement
-- that was reset and not stepped since, steps one only where it was reset or answered with a row, and
-- reads columns only of a current row; the last three ask for no size before the column is a blob.
pub callbacks-Obeyed :
    {W : Type 0} (db : Sqlite W) (fuel : ℕ) (scan : List ℕ → List ℤ) (stack : ℕ → ℤ)
    (request : HttpRequest) (m : Mem) (w : Watched W)
    → w.misused ≡ false
    → Post (λ a. Obeyed) (http_callback_login (watched false db) request m w)
      × Post (λ a. Obeyed) (http_callback_user (watched true db) request m w)
      × Post (λ a. Obeyed) (http_callback_branches (watched true db) fuel request m w)
      × Post (λ a. Obeyed) (http_callback_newbranch (watched true db) scan stack request m w)
callbacks-Obeyed db fuel scan stack request m w p = (
  (login-Obeyed db request).run m w p,
  (user-Obeyed true db request).run m w p,
  (branches-Obeyed true db fuel request).run m w p,
  (newbranch-Obeyed true db scan stack request).run m w p,
)
