-- ===== src/Tests/Database.antt =====
-- src/server.c on a concrete database.
use sleepytext.Prelude.{
  ℕ, ◌≡◌, refl, true, false, Option, none, some, arith, ◌==◌, if◌then◌else◌, List, [], ◌∷◌, ◌++◌,
}
use sleepytext.Prelude.Int.{ℤ, pos}
use sleepytext.Prelude.Text.{codes}
use sleepytext.Bytes.{Bytes, bs, bvoid}
use sleepytext.Bytes.Views.{bs-Views}
use sleepytext.Bytes.Find.{scan}
use sleepytext.Bytes.Print.{show_int}
use sleepytext.Server.Session.{getuserid, user_of_session}
use sleepytext.Server.Session.Roundtrip.{with_cookie, getuserid-user_of_session}
use sleepytext.Http.{HttpRequest, http_result, http_ok}
use sleepytext.Start.{prepare_all, stop, add_callbacks, pairs}
use sleepytext.Start.Table.{main_routes, add_callbacks-answer}
use sleepytext.HttpServer.{HttpCallbackPair, HttpServer, http_server_callback_dispatch}
use sleepytext.HttpServer.Dispatch.{answer}
use sleepytext.Memory.Holds.{Holds-append}
use sleepytext.Server.Pages.{http_callback_void}
use sleepytext.Tests.Server.{files}
use sleepytext.Start.Prepared.{Connection, connection}
use sleepytext.Start.Stop.{prepare_all-stop}
use sleepytext.System.{done, crashed}
use sleepytext.Server.Sql.{
  sql_blob, delivered, ResultCode, code_ok, Sqlite, sqlite_row, sqlite_done,
}
use sleepytext.Memory.{Mem, ok}
use sleepytext.Bytes.{bsame}
use sleepytext.Bytes.Same.{bsame-zero}
use sleepytext.Prelude.{◌↔◌}
use sleepytext.Prelude.Int.{is_zero}
use sleepytext.Server.Protocol.Early.{RowMisused, http_callback_login-RowMisused}
use sleepytext.Server.Users.Signed.{welcome, signed}
use sleepytext.Server.Users.Login.{callbacks-answer}
use sleepytext.Server.Users.{http_callback_login, http_callback_user}
use sleepytext.Server.Branches.{http_callback_branches, http_callback_newbranch}
use sleepytext.Server.Protocol.{Watched, watched, finished, number_of}
use sleepytext.Server.Protocol.Calls.{Obeyed}
use sleepytext.Server.Protocol.Obeyed.{callbacks-Obeyed}
use sleepytext.System.Ensures.{Post}
use sleepytext.Tests.Bytes.{mem}

-- The world is the list of the texts and blobs that were bound. The steps answer with a
-- row of the password, but that of the user's insertion, which is done.
abbrev database : Sqlite (List (List ℕ))
database = record {
  reset = λ st w. (pos 0, w);
  bind_int64 = λ st n v w. (pos 0, w);
  bind_text = λ st n v w. (pos 0, w ++ (v ∷ []));
  bind_blob = λ st n v w. (pos 0, w ++ (v ∷ []));
  step = λ st w. if number_of st == 5 then (sqlite_done, w) else (sqlite_row, w);
  column_int = λ st n w. (pos 1, w);
  column_int64 = λ st n w. (pos 7, w);
  column_bytes = λ st n w. (pos 6, w);
  column_blob = λ st n w. (some (codes "secret"), w);
}

abbrev unused : Watched (List (List ℕ))
unused = record { inner = []; stage = λ n. finished; formed = λ s n. false; misused = false }

abbrev login_request : HttpRequest
login_request = record { header = bvoid; payload = bs (codes "sam\nsecret"); addr = bvoid }

abbrev scan_none : List ℕ → List ℤ
scan_none text = []

callbacks-Obeyed_example :
    Post (λ a. Obeyed) (http_callback_login (watched false database) login_request mem unused)
    × Post (λ a. Obeyed) (http_callback_user (watched true database) login_request mem unused)
    × Post (λ a. Obeyed) (http_callback_branches (watched true database) 3 login_request mem unused)
    × Post
        (λ a. Obeyed)
        (http_callback_newbranch
          (watched true database)
          scan_none
          (λ i. pos 0)
          login_request
          mem
          unused)
callbacks-Obeyed_example =
    callbacks-Obeyed database 3 scan_none (λ i. pos 0) login_request mem unused refl

http_callback_login-RowMisused_example :
    Post (λ a. RowMisused) (http_callback_login (watched true database) login_request mem unused)
http_callback_login-RowMisused_example =
    http_callback_login-RowMisused database login_request mem unused

abbrev no_refusal : List ℕ → Option ResultCode
no_refusal sql = none

abbrev opened : Connection
opened = record {
  statements = [];
  next = 0;
  outcome = λ p. code_ok;
  is_running = false;
  is_interrupted = false;
  is_open = true;
}

prepare_all-stop_example :
    (c' : Connection) × (prepare_all
        (connection no_refusal no_refusal)
        (codes "select 1" ∷ [])
        mem
        opened
      ≡ done true mem c')
    × (stop (connection no_refusal no_refusal) 2 mem c' ≡ crashed)
prepare_all-stop_example =
    prepare_all-stop no_refusal no_refusal 0 (codes "select 1") [] opened mem (refl, tt)

abbrev cookie_header : Bytes
cookie_header =
    bs (with_cookie (codes "GET / HTTP/1.1\r") [] 42 (some (codes " a=b")) (codes "Host: x"))

getuserid-user_of_session_example :
    getuserid database cookie_header mem [] ≡ user_of_session database (pos 42) mem []
unfolding scan show_int
getuserid-user_of_session_example =
    getuserid-user_of_session (codes "GET / HTTP/1.1\r") [] 42 (some (codes " a=b"))
      (codes "Host: x") database {m = mem} [] (bs-Views _) (omega arith) refl tt (ground arith) tt
      (omega arith)

abbrev new_server : HttpServer (List (List ℕ))
new_server = record {
  callback =
      let free : HttpCallbackPair (List (List ℕ)) = record {
        fun = http_callback_void;
        addr = bvoid;
      } in
      free ∷ free ∷ free ∷ free ∷ free ∷ free ∷ free ∷ free ∷ [];
  callbacks = 0;
}

abbrev branch_request : HttpRequest
branch_request = record {
  header = bvoid;
  payload = bvoid;
  addr = record (bs (codes "/api/0/branch/7 HTTP/1.1")) { len = 15 };
}

add_callbacks-answer_example :
    (s' : HttpServer (List (List ℕ))) × (add_callbacks
        (pairs files database scan_none (λ i. pos 0) 3)
        new_server
        mem
        []
      ≡ done s' mem [])
    × (http_server_callback_dispatch s' branch_request mem []
        ≡ answer
            (main_routes files database scan_none (λ i. pos 0) 3)
            (codes "/api/0/branch/7")
            branch_request
            mem
            [])
add_callbacks-answer_example =
    add_callbacks-answer files database scan_none (λ i. pos 0) 3 new_server branch_request
      (codes "/api/0/branch/7") {m = mem} [] refl (omega arith)
      (Holds-append {m = mem} (codes "/api/0/branch/7 ")
        (bs-Views {m = mem} (codes "/api/0/branch/7 HTTP/1.1")).holds).0
      refl

abbrev roomy : Mem
roomy = record mem { room = 200 }

callbacks-answer_example :
    (http_callback_login database login_request roomy []
      ≡ done (welcome (pos 7) roomy) (signed (pos 7) roomy) (codes "sam" ∷ []))
    × (http_callback_user database login_request roomy []
        ≡ done (http_result http_ok) roomy (codes "sam" ∷ codes "secret" ∷ []))
callbacks-answer_example =
    callbacks-answer database login_request (codes "sam") (codes "secret")
      (sql_blob (codes "secret")) (codes "secret") {m = roomy} [] (bs-Views (codes "sam\nsecret"))
      (omega arith) (ground arith) (omega arith) (λ is_row. delivered (omega arith))

bsame-zero_example :
    (z : ℤ) × (bsame (bs (codes "ab")) (bs (codes "ac")) mem ≡ ok z mem)
    × ((is_zero z ≡ true) ↔ (codes "ab" ≡ codes "ac"))
bsame-zero_example = bsame-zero (bs-Views (codes "ab")) (bs-Views (codes "ac"))
