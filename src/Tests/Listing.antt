-- ===== src/Tests/Listing.antt =====
-- src/server.c: `branches` on a concrete database with two rows.
use sleepytext.Prelude.{
  none, ℕ, ◌+◌, ◌≡◌, refl, some, List, [], ◌∷◌, ◌==◌, ltb, if◌then◌else◌, arith,
}
use sleepytext.Prelude.Int.{ℤ, pos}
use sleepytext.Prelude.Text.{codes}
use sleepytext.Memory.{Mem}
use sleepytext.Bytes.{Bytes, bs, bvoid}
use sleepytext.Bytes.Find.{scan}
use sleepytext.Bytes.Print.{show_int}
use sleepytext.Bytes.Views.{Views, bs-Views}
use sleepytext.Http.{HttpRequest, http_result, http_ok}
use sleepytext.Server.Branches.{BranchRow, http_callback_branches, http_callback_newbranch}
use sleepytext.Server.Branches.Inserted.{http_callback_newbranch-branch_end}
use sleepytext.Server.Branches.Listed.{ended, more, list_text, http_callback_branches-page_response}
use sleepytext.Server.Pages.Read.{page_response}
use sleepytext.Server.Protocol.{number_of}
use sleepytext.Server.Session.{getuserid, user_of_session}
use sleepytext.Server.Session.Roundtrip.{with_cookie, getuserid-user_of_session}
use sleepytext.Server.Sql.{Sqlite, sqlite_row, sqlite_done}
use sleepytext.System.{done}
use sleepytext.Tests.Bytes.{mem}

-- The world is the number of the rows that were delivered.
abbrev listing : Sqlite ℕ
listing = record {
  reset = λ st w. (pos 0, w);
  bind_int64 = λ st n v w. (pos 0, w);
  bind_text = λ st n v w. (pos 0, w);
  bind_blob = λ st n v w. (pos 0, w);
  step = λ st w.
      if number_of st == 8
      then (if ltb w 2 then (sqlite_row, w + 1) else (sqlite_done, w))
      else if number_of st == 7
      then (sqlite_done, w)
      else (sqlite_row, w);
  column_int = λ st n w. (pos 5, w);
  column_int64 = λ st n w. (pos n, w);
  column_bytes = λ st n w. (pos 0, w);
  column_blob = λ st n w. (none, w);
}

abbrev branch : BranchRow
branch = record { id = pos 0; parent = pos 1; place = pos 2; document = pos 3 }

abbrev roomy : Mem
roomy = record mem { room = 4096 }

abbrev list_request : HttpRequest
list_request = record {
  header = bs (
      with_cookie (codes "GET /api/0/branches HTTP/1.1\r") [] 42 (some (codes " a=b"))
        (codes "Host: x"));
  payload = bvoid;
  addr = bvoid;
}

user_found : getuserid listing list_request.header roomy 0 ≡ done (pos 5) roomy 0
unfolding scan show_int user_of_session
user_found =
    getuserid-user_of_session (codes "GET /api/0/branches HTTP/1.1\r") [] 42 (some (codes " a=b"))
      (codes "Host: x") listing {m = roomy} 0 (bs-Views _) (omega arith) refl tt (ground arith) tt
      (omega arith)

http_callback_branches-page_response_example :
    (page : Bytes) × (m' : Mem) × (http_callback_branches listing 3 list_request roomy 0
      ≡ done (page_response page) m' 2)
    × Views m' page (list_text (branch ∷ branch ∷ []))
unfolding show_int
http_callback_branches-page_response_example =
    http_callback_branches-page_response listing 3 list_request (pos 5) (branch ∷ branch ∷ []) roomy
      0 0 user_found refl (more 0 refl (more 1 refl (ended 2 refl))) (omega arith) (omega arith)
      (omega arith)

-- A scanner that converts three numbers
abbrev three_numbers : List ℕ → List ℤ
three_numbers text = pos 1 ∷ pos 2 ∷ pos 3 ∷ []

abbrev insert_request : HttpRequest
insert_request = record list_request { payload = bs (codes "1 2 3") }

http_callback_newbranch-branch_end_example :
    http_callback_newbranch listing three_numbers (λ i. pos 9) insert_request roomy 0
    ≡ done (http_result http_ok) roomy 0
unfolding scan show_int
http_callback_newbranch-branch_end_example =
    http_callback_newbranch-branch_end listing three_numbers (λ i. pos 9) insert_request
      (codes "GET /api/0/branches HTTP/1.1\r") [] 42 (some (codes " a=b")) (codes "Host: x")
      (record { parent = pos 1; place = pos 2; document = pos 3 }) [] (codes "1 2 3") {m = roomy} 0
      (bs-Views _) (omega arith) refl tt (ground arith) tt (omega arith) (bs-Views (codes "1 2 3"))
      refl
