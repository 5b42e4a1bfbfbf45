-- ===== src/Server/Users.antt =====
-- src/server.c: the callbacks `login` and `user`, which read a name and a password from the payload of
-- the request, with a line break between them.
pub mod Login
pub mod Signed
use sleepytext.Prelude.{List, [], ◌∷◌, not, set, if◌then◌else◌}
use sleepytext.Prelude.Int.{ℤ, is_zero}
use sleepytext.Prelude.Text.{codes}
use sleepytext.Bytes.{Bytes, view, bs, bfind, bsame, balloc}
use sleepytext.Bytes.Print.{Piece, text, number, bprintf}
use sleepytext.Http.{to_size, HttpRequest, HttpRawResponse, http_result, http_ok, http_bad_request}
use sleepytext.Server.Sql.{
  Sqlite, selectpassword, updatelastseen, insertuser, sqlite_row, sqlite_done, bound_text,
  bound_blob, pointer_of,
}
use sleepytext.Prelude.Int.{same_int}
use sleepytext.System.{Io, ◌>>=◌, ◌>>◌, return, local, world}

abbrev pub line_break : Bytes
line_break = bs (b'\n' ∷ [])

abbrev pub cookie_text : ℤ → List Piece
cookie_text session =
    text (codes "session=") ∷ number session ∷ text (codes "; path=/; secure\r\n\r\n") ∷ []

module _ {W : Type 0} (db : Sqlite W) where
  -- The right password: the session goes into a cookie.
  unfoldable pub logged_in : ℤ → Io W HttpRawResponse
  logged_in session = do
    world (db.reset updatelastseen)
    world (db.bind_int64 updatelastseen 1 session)
    world (db.step updatelastseen)
    mem ← local (balloc 128)
    printed ← local (bprintf mem (cookie_text session))
    let result = http_result http_ok
    return (record result {
      headers = 1;
      header_name = set result.header_name 0 (bs (codes "Set-Cookie"));
      header_val = set result.header_val 0 printed.first;
    })

  -- What is asked for a user and a password. The size and the pointer of the stored one are members of
  -- one initializer, whose order C leaves to the compiler; here it is the order in which they are written.
  unfoldable pub check_password : Bytes → Bytes → Io W HttpRawResponse
  unfolding logged_in
  check_password user password = do
    world (db.reset selectpassword)
    name ← local (bound_text user)
    world (db.bind_text selectpassword 1 name)
    code ← world (db.step selectpassword)
    if not (same_int code sqlite_row) then return (http_result http_bad_request) else (do
      size ← world (db.column_bytes selectpassword 0)
      blob ← world (db.column_blob selectpassword 0)
      session ← world (db.column_int64 selectpassword 1)
      same ← local (bsame password (view (pointer_of blob) (to_size size)))
      if is_zero same then logged_in session else return (http_result http_bad_request))

  unfoldable pub http_callback_login : HttpRequest → Io W HttpRawResponse
  unfolding check_password
  http_callback_login request = do
    f ← local (bfind request.payload line_break)
    check_password f.before f.after

  unfoldable pub insert_user : Bytes → Bytes → Io W HttpRawResponse
  insert_user user password = do
    world (db.reset insertuser)
    name ← local (bound_text user)
    world (db.bind_text insertuser 1 name)
    secret ← local (bound_blob password)
    world (db.bind_blob insertuser 2 secret)
    code ← world (db.step insertuser)
    if not (same_int code sqlite_done)
        then return (http_result http_bad_request)
        else return (http_result http_ok)

  unfoldable pub http_callback_user : HttpRequest → Io W HttpRawResponse
  unfolding insert_user
  http_callback_user request = do
    f ← local (bfind request.payload line_break)
    insert_user f.before f.after
