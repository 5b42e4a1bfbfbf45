-- ===== src/Server/Users/Login.antt =====
-- src/server.c: what `login` and `user` ask and answer, told by the name and the password that stand in
-- the payload.
use mathlib.Core.List.{append-nil}
use sleepytext.Prelude.{
  ℕ, ◌≤◌, ◌≡◌, refl, true, false, Option, none, some, List, [], ◌∷◌, ◌++◌, ◌==◌, length,
  length-append, if◌then◌else◌, not, inl, inr, Bool-cases, arith,
}
use sleepytext.Prelude.Int.{ℤ, pos, same_int, is_zero}
use sleepytext.Prelude.Words.{int_max, to_int_small}
use sleepytext.Memory.{Mem, ok}
use sleepytext.Memory.Holds.{nil}
use sleepytext.Bytes.{Bytes, view, bsame}
use sleepytext.Bytes.Find.First.{Lacks, bfind_first}
use sleepytext.Bytes.Print.Cstring.{read_bytes-Holds}
use sleepytext.Bytes.Same.{same_list, bsame-same_list}
use sleepytext.Bytes.Views.{Views, bs-Views, static-Holds}
use sleepytext.Http.{to_size, HttpRequest, HttpRawResponse, http_result, http_ok, http_bad_request}
use sleepytext.Server.Sql.{
  Sqlite, SqlValue, selectpassword, insertuser, sqlite_row, sqlite_done, bound_text, bound_blob,
  blob_of, pointer_of, ColumnAnswer, delivered, no_size,
}
use sleepytext.Server.Users.{
  line_break, logged_in, check_password, http_callback_login, insert_user, http_callback_user,
}
use sleepytext.Server.Users.Signed.{welcome, signed, seen, logged_in-welcome}
use sleepytext.System.{Reply, done, ◌>>=◌, return, local}

module _ {m : Mem} {b : Bytes} {xs : List ℕ} where
  bound_text-Views : Views m b xs → length xs ≤ int_max → bound_text b m ≡ ok xs m
  unfolding bound_text
  bound_text-Views v le =
      rw (bound_text, v.len_is, to_int_small (length xs) le)
        (read_bytes-Holds (length xs) v.holds refl)

  bound_blob-Views : Views m b xs → length xs ≤ int_max → bound_blob b m ≡ ok xs m
  unfolding bound_blob
  bound_blob-Views v le =
      rw (bound_blob, v.len_is, to_int_small (length xs) le)
        (read_bytes-Holds (length xs) v.holds refl)

-- The view that the size and the pointer of a column make
abbrev column_view : ℤ → Option (List ℕ) → Bytes
column_view size blob = view (pointer_of blob) (to_size size)

delivered-Views :
    {m : Mem} (xs : List ℕ)
    → length xs ≤ int_max
    → Views m (column_view (pos (length xs)) (if length xs == 0 then none else some xs)) xs
delivered-Views [] le = record { holds = nil; len_is = refl }
delivered-Views {m} (x ∷ xs) le =
    let some_bytes : (length (x ∷ xs) == 0) ≡ false = ground arith in
    let holds = static-Holds {m = m} [] (x ∷ xs) [] 0 refl in
    rw some_bytes (record { holds = rw (append-nil xs) at holds; len_is = omega (arith, le) })

column_view-Views :
    {m : Mem} {value : SqlValue} {size : ℤ} {blob : Option (List ℕ)} {bytes : List ℕ}
    → ColumnAnswer value size blob bytes
    → Views m (column_view size blob) bytes
column_view-Views {value = value} (delivered le) = delivered-Views (blob_of value) le
column_view-Views (no_size blob) = record { holds = nil; len_is = refl }

-- The current row of the statement for a password
pub record PasswordRow (W : Type 0) : Type 0 where
  pub size : ℤ
  pub blob : Option (List ℕ)
  pub session : ℤ
  pub next : W

module _ {W : Type 0} (db : Sqlite W) where
  -- The result of the step for the row of a user, and the world behind it
  abbrev pub password_step : List ℕ → W → ℤ × W
  password_step name w =
      db.step selectpassword (db.bind_text selectpassword 1 name (db.reset selectpassword w).1).1

  -- The columns of the row
  abbrev pub password_row : W → PasswordRow W
  password_row w =
      let (size, w1) = db.column_bytes selectpassword 0 w in
      let (blob, w2) = db.column_blob selectpassword 0 w1 in
      let (session, w3) = db.column_int64 selectpassword 1 w2 in
      record { size = size; blob = blob; session = session; next = w3 }

  -- The result of the step that inserts a user, and the world behind it
  abbrev pub insert_step : List ℕ → List ℕ → W → ℤ × W
  insert_step name secret w =
      let named = (db.bind_text insertuser 1 name (db.reset insertuser w).1).1 in
      db.step insertuser (db.bind_blob insertuser 2 secret named).1

  -- How login ends where the stored password has these bytes
  abbrev pub login_end : List ℕ → List ℕ → Mem → ℤ × W → Reply W HttpRawResponse
  login_end secret stored m (code, w) =
      let row = password_row w in
      if not (same_int code sqlite_row)
      then done (http_result http_bad_request) m w
      else if same_list secret stored
      then done (welcome row.session m) (signed row.session m) (seen db row.session row.next)
      else done (http_result http_bad_request) m row.next

  -- How user ends
  abbrev pub user_end : Mem → ℤ × W → Reply W HttpRawResponse
  user_end m (code, w) =
      done (http_result (if same_int code sqlite_done then http_ok else http_bad_request)) m w

  -- `bsame` of the password and what is stored
  compared :
      {m : Mem} {password : Bytes} {secret stored : List ℕ} {value : SqlValue} {size : ℤ}
      {blob : Option (List ℕ)} (session : ℤ) (w : W)
      → Views m password secret
      → ColumnAnswer value size blob stored
      → 128 ≤ m.room
      → (local (bsame password (column_view size blob)) >>= λ same.
            if is_zero same then logged_in db session else return (http_result http_bad_request))
          m w
        ≡ (if same_list secret stored
            then done (welcome session m) (signed session m) (seen db session w)
            else done (http_result http_bad_request) m w)
  compared {m} {secret = secret} {stored} session w v answer room =
      let (z, ran, is) = bsame-same_list v (column_view-Views {m = m} answer) in
      rw (ran, is)
        (elim (Bool-cases (same_list secret stored)) [
          | inl same ↦ rw same (logged_in-welcome db session m w room)
          | inr other ↦ rw other refl
        ])

  module _ {m : Mem} {user password : Bytes} {name secret : List ℕ} where
    check_password-login_end :
        (w : W) (value : SqlValue) (stored : List ℕ)
        → Views m user name
        → Views m password secret
        → length name ≤ int_max
        → 128 ≤ m.room
        → let (code, w') = password_step name w in
          let row = password_row w' in
          (same_int code sqlite_row ≡ true → ColumnAnswer value row.size row.blob stored)
          → check_password db user password m w ≡ login_end secret stored m (code, w')
    unfolding check_password
    check_password-login_end w value stored v v' le room answer = rw (bound_text-Views v le) (
        let (code, w') = password_step name w in
        let row = password_row w' in
        elim (Bool-cases (same_int code sqlite_row)) [
          | inl is_row ↦ rw is_row (compared row.session row.next v' (answer is_row) room)
          | inr other ↦ rw other refl
        ])

    insert_user-user_end :
        (w : W)
        → Views m user name
        → Views m password secret
        → length name ≤ int_max
        → length secret ≤ int_max
        → insert_user db user password m w ≡ user_end m (insert_step name secret w)
    unfolding insert_user
    insert_user-user_end w v v' le le' =
        rw (bound_text-Views v le, bound_blob-Views v' le')
          (elim (Bool-cases (same_int (insert_step name secret w).0 sqlite_done)) [
            | inl is_done ↦ rw is_done refl
            | inr other ↦ rw other refl
          ])

  -- Where the payload is a name and a password with a line break between them, the name holds no line
  -- break, they have at most 2^31 - 1 bytes with it, there is memory for a cookie, and SQLite, where it
  -- gives a row for the name, answers its size and its pointer for one value or a size of 0, login and
  -- user run without a fault. login refuses where there is no row, or where the bytes that SQLite gave
  -- are not those of the password; else it sets the session of the row as seen now, and sends it in a
  -- cookie printed into new memory. user inserts the name as a text and the password as a blob, and
  -- answers whether SQLite has done so.
  pub callbacks-answer :
      (request : HttpRequest) (name secret : List ℕ) (value : SqlValue) (stored : List ℕ) {m : Mem}
      (w : W)
      → Views m request.payload (name ++ (b'\n' ∷ secret))
      → length (name ++ (b'\n' ∷ secret)) ≤ int_max
      → Lacks b'\n' name
      → 128 ≤ m.room
      → let (code, w') = password_step name w in
        let row = password_row w' in
        (same_int code sqlite_row ≡ true → ColumnAnswer value row.size row.blob stored)
        → (http_callback_login db request m w ≡ login_end secret stored m (code, w'))
          × (http_callback_user db request m w ≡ user_end m (insert_step name secret w))
  unfolding http_callback_login http_callback_user
  callbacks-answer request name secret value stored {m} w v le lacks room answer =
      let (f, found, parts) =
        bfind_first {what = line_break} name secret v (bs-Views (b'\n' ∷ [])) le lacks in
      let name_le : length name ≤ int_max = omega (arith, length-append name (b'\n' ∷ secret)) in
      let secret_le : length secret ≤ int_max =
        omega (arith, length-append name (b'\n' ∷ secret)) in
      (
        rw found
            (check_password-login_end w value stored parts.before parts.after name_le room answer),
        rw found (insert_user-user_end w parts.before parts.after name_le secret_le),
      )
