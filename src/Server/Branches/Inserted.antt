-- ===== src/Server/Branches/Inserted.antt =====
-- src/server.c: the branch that `newbranch` inserts, told by the text of the request.
use sleepytext.Prelude.{
  ℕ, ◌≤◌, ◌≡◌, refl, Option, none, List, ◌∷◌, length, if◌then◌else◌, inl, inr, Bool-cases,
}
use sleepytext.Prelude.Int.{ℤ, pos, same_int, is_zero}
use sleepytext.Prelude.Text.{codes}
use sleepytext.Prelude.Words.{int_max, int64_max}
use sleepytext.Memory.{Mem}
use sleepytext.Bytes.{Bytes}
use sleepytext.Bytes.Find
use sleepytext.Bytes.Find.First.{Lacks}
use sleepytext.Bytes.Print.Cstring.{read_bytes-Holds}
use sleepytext.Bytes.Scan.{bscanf}
use sleepytext.Bytes.Views.{Views}
use sleepytext.Http.{HttpRequest, HttpRawResponse, http_result, http_ok, http_bad_request}
use sleepytext.Server.Branches.{insert_branch, http_callback_newbranch}
use sleepytext.Server.Session.{user_of_session}
use sleepytext.Server.Session.Roundtrip.{other_cookies, with_cookie, getuserid-user_of_session}
use sleepytext.Server.Sql.{Sqlite, selectuserid, insertbranch, sqlite_row, sqlite_done}
use sleepytext.System.{Reply, done}

-- The three numbers of a new branch
pub record NewBranch : Type 0 where
  pub parent : ℤ
  pub place : ℤ
  pub document : ℤ

module _ {W : Type 0} (db : Sqlite W) where
  -- The user of a session, 0 where there is none, and the world behind the calls
  abbrev pub session_user : ℕ → W → ℤ × W
  session_user n w =
      let (code, w') =
        db.step selectuserid (db.bind_int64 selectuserid 1 (pos n) (db.reset selectuserid w).1).1 in
      if same_int code sqlite_row then db.column_int selectuserid 0 w' else (pos 0, w')

  -- The result of the step that inserts the branch, and the world behind it
  abbrev pub branch_step : NewBranch → ℤ → W → ℤ × W
  branch_step b user w =
      let with_parent = (db.bind_int64 insertbranch 1 b.parent (db.reset insertbranch w).1).1 in
      let with_place = (db.bind_int64 insertbranch 2 b.place with_parent).1 in
      let with_document = (db.bind_int64 insertbranch 3 b.document with_place).1 in
      db.step insertbranch (db.bind_int64 insertbranch 4 user with_document).1

  -- How newbranch ends for a user
  abbrev pub branch_end : NewBranch → Mem → ℤ × W → Reply W HttpRawResponse
  branch_end b m (user, w) =
      let (code, w') = branch_step b user w in
      if is_zero user
      then done (http_result http_bad_request) m w
      else done (http_result (if same_int code sqlite_done then http_ok else http_bad_request)) m w'

  user_of_session-session_user :
      (n : ℕ) (m : Mem) (w : W)
      → let (user, w') = session_user n w in user_of_session db (pos n) m w ≡ done user m w'
  unfolding user_of_session
  user_of_session-session_user n m w =
      let w1 = (db.bind_int64 selectuserid 1 (pos n) (db.reset selectuserid w).1).1 in
      elim (Bool-cases (same_int (db.step selectuserid w1).0 sqlite_row)) [
        | inl is_row ↦ rw is_row refl
        | inr other ↦ rw other refl
      ]

  insert_branch-branch_end :
      (scan : List ℕ → List ℤ) (stack : ℕ → ℤ) (payload : Bytes) (b : NewBranch) (more : List ℤ)
      (xs : List ℕ) {m : Mem} (user : ℤ) (w : W)
      → Views m payload xs
      → scan xs ≡ b.parent ∷ b.place ∷ b.document ∷ more
      → insert_branch db scan stack user payload m w ≡ branch_end b m (user, w)
  unfolding insert_branch bscanf
  insert_branch-branch_end scan stack payload b more xs user w v numbers =
      elim (Bool-cases (is_zero user)) [
        | inl none_known ↦ rw none_known refl
        | inr known ↦ rw known (
            rw (read_bytes-Holds payload.len v.holds v.len_is, numbers)
              (elim (Bool-cases (same_int (branch_step b user w).0 sqlite_done)) [
                | inl is_done ↦ rw is_done refl
                | inr other ↦ rw other refl
              ]))
      ]

  -- Where the header of the request has a cookie line whose `session=` is followed by the decimal
  -- digits of n and then by nothing or by `;` and more, and the payload scans to three numbers or more,
  -- newbranch asks for the user of the session n; where there is no row, or the user is 0, it refuses
  -- and asks no more; else it inserts a branch with the three numbers as its parent, position and
  -- document and with this user, whatever stood on the stack, and answers whether SQLite has done so.
  -- The line before the cookie and those above do not hold `Cookie`, another line follows it, no CR
  -- stands in the cookie, no `s` before `session=`, n fits in int64_t, and the header in int.
  pub http_callback_newbranch-branch_end :
      (scan : List ℕ → List ℤ) (stack : ℕ → ℤ) (request : HttpRequest) (before front : List ℕ)
      (n : ℕ) (others : Option (List ℕ)) (rest : List ℕ) (b : NewBranch) (more : List ℤ)
      (xs : List ℕ) {m : Mem} (w : W)
      → Views m request.header (with_cookie before front n others rest)
      → length (with_cookie before front n others rest) ≤ int_max
      → Find.scan (codes "Cookie") (codes "Cookie") before 0 ≡ none
      → Lacks b'\r' front
      → Lacks b'\r' (other_cookies others)
      → Lacks b's' front
      → n ≤ int64_max
      → Views m request.payload xs
      → scan xs ≡ b.parent ∷ b.place ∷ b.document ∷ more
      → http_callback_newbranch db scan stack request m w ≡ branch_end b m (session_user n w)
  unfolding http_callback_newbranch
  http_callback_newbranch-branch_end scan stack request before front n others rest b more xs {m} w v
        le missing l l' first small v' numbers =
      let (user, w') = session_user n w in
      rw
        (
          getuserid-user_of_session before front n others rest db w v le missing l l' first small,
          user_of_session-session_user n m w,
        )
        (insert_branch-branch_end scan stack request.payload b more xs user w' v' numbers)
