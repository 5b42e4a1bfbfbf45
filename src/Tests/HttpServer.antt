-- ===== src/Tests/HttpServer.antt =====
-- src/http_server.c at concrete inputs.
use sleepytext.Prelude.{ℕ, ◌≡◌, refl, List, [], ◌∷◌, ◌++◌, arith}
use sleepytext.Prelude.Text.{codes}
use sleepytext.Memory.Holds.{Holds, Holds-append}
use sleepytext.Bytes.{bs, bvoid}
use sleepytext.Bytes.Views.{bs-Views}
use sleepytext.Http.{HttpRequest, HttpResult, http_ok, http_not_found, http_forbidden, http_result}
use sleepytext.System.{return, done}
use sleepytext.HttpServer.{
  Handler, HttpCallbackPair, HttpServer, http_server_add_callback, http_server_callback_dispatch,
}
use sleepytext.HttpServer.Dispatch.{
  Route, table, http_server_add_callback-answer, http_server_callback_dispatch-answer,
}
use sleepytext.Tests.Bytes.{mem}

-- A callback that answers with one status.
abbrev always : HttpResult → Handler (List ℕ)
always status request = return (http_result status)

abbrev routes : List (Route (List ℕ))
routes =
    record { path = codes "/"; fun = always http_ok }
    ∷ record { path = codes "/branch"; fun = always http_forbidden }
    ∷ []

abbrev server_state : HttpServer (List ℕ)
server_state = record { callback = table routes; callbacks = 2 }

abbrev addressed : List ℕ → HttpRequest
addressed addr = record {
  header = bvoid;
  payload = bvoid;
  addr = record (bs (addr ++ codes " HTTP/1.1")) { len = 9 };
}

address_held : Holds mem (addressed (codes "/branch/7")).addr.ptr (codes "/branch/7" ++ b' ' ∷ [])
address_held =
    (Holds-append {m = mem} (codes "/branch/7 ")
      (bs-Views {m = mem} (codes "/branch/7 HTTP/1.1")).holds).0

http_server_callback_dispatch-answer_example :
    http_server_callback_dispatch server_state (addressed (codes "/branch/7")) mem []
    ≡ done (http_result http_forbidden) mem []
http_server_callback_dispatch-answer_example =
    http_server_callback_dispatch-answer routes [] server_state (addressed (codes "/branch/7"))
      (codes "/branch/7") {m = mem} [] (omega arith) refl refl address_held refl

abbrev third : Route (List ℕ)
third = record { path = codes "/br"; fun = always http_ok }

abbrev free_slot : HttpCallbackPair (List ℕ)
free_slot = record { fun = always http_not_found; addr = bvoid }

http_server_add_callback-answer_example :
    (s' : HttpServer (List ℕ)) × (http_server_add_callback
        (record { callback = table routes ++ free_slot ∷ []; callbacks = 2 })
        (record { fun = always http_ok; addr = bs (codes "/br") })
        mem
        []
      ≡ done s' mem [])
    × (http_server_callback_dispatch s' (addressed (codes "/branch/7")) mem []
        ≡ done (http_result http_forbidden) mem [])
http_server_add_callback-answer_example =
    http_server_add_callback-answer routes third free_slot []
      (record { callback = table routes ++ free_slot ∷ []; callbacks = 2 })
      (addressed (codes "/branch/7")) (codes "/branch/7") {m = mem} [] (omega arith) (omega arith)
      refl refl address_held refl
