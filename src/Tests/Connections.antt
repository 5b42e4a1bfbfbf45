-- ===== src/Tests/Connections.antt =====
-- src/http_server.c: a request that comes in two pieces.
use sleepytext.HttpServer.{HttpCallbackPair}
use sleepytext.Server.Sql.{Sqlite, sqlite_done}
use sleepytext.Start.{add_callbacks, pairs}
use sleepytext.Start.Served.{events-http_callback_root}
use sleepytext.System.Files.{Files}
use sleepytext.Prelude.{
  none, ℕ, ◌+◌, ◌^◌, ◌≤◌, ◌≡◌, refl, some, List, [], ◌∷◌, ◌++◌, ltb, if◌then◌else◌, arith,
}
use sleepytext.Prelude.Int.{pos}
use sleepytext.Prelude.Text.{codes}
use sleepytext.Memory.{Mem}
use sleepytext.Bytes.{Bytes, bvoid}
use sleepytext.Bytes.Find.{scan}
use sleepytext.Connections.{HttpTlsConnection, http_tls_ondata}
use sleepytext.Connections.Pieces.{Pieces, no_piece, piece, events, events-answered}
use sleepytext.Connections.Received.{Arrives}
use sleepytext.Connections.Replies.{Gives, no_payload}
use sleepytext.Connections.Served.{PlainRequest, http_tls_ondata-partial}
use sleepytext.Connections.Text.{HasText, no_buffer}
use sleepytext.Http.{HttpRequest, http_ok, http_result}
use sleepytext.Http.Response.{known_status}
use sleepytext.HttpServer.{Handler, HttpServer}
use sleepytext.HttpServer.Dispatch.{Route, table, answer}
use sleepytext.System.{return, done}
use sleepytext.System.Tls.{Tls}
use sleepytext.TlsLayer.Plain.{last_read}
use sleepytext.Tests.Bytes.{mem}
use sleepytext.Tests.Network.{net, ssl, crypto}

abbrev early : List ℕ
early = codes "GET / HTTP/1.1\r\nHost: a\r"

abbrev late : List ℕ
late = codes "\n\r\n"

-- The first call of `SSL_read` gives the one piece, the later ones the other.
abbrev two_pieces : Tls ℕ
two_pieces = record ssl {
  ssl_read = λ tls count w. (some (if ltb w 3 then early else late), w + 1);
}

abbrev new_connection : HttpTlsConnection
new_connection = record { tcp = record { socket = pos 5; ip = [] }; tls = 1; buffer = bvoid }

abbrev large_mem : Mem
large_mem = record mem { room = 4000000 }

abbrev always_ok : Handler ℕ
always_ok request = return (http_result http_ok)

abbrev one_route : List (Route ℕ)
one_route = record { path = codes "/"; fun = always_ok } ∷ []

abbrev one_callback : HttpServer ℕ
one_callback = record { callback = table one_route; callbacks = 1 }

early-Arrives : Arrives net two_pieces 1 (pos 5) 1 0 0 early 3
early-Arrives = record {
  sealed = codes "sealed";
  received = refl;
  some_bytes = omega arith;
  short = omega arith;
  reads = last_read 4096 2 refl;
}

late-Arrives : Arrives net two_pieces 1 (pos 5) 1 24 4 late 7
late-Arrives = record {
  sealed = codes "sealed";
  received = refl;
  some_bytes = omega arith;
  short = omega arith;
  reads = last_read 4072 6 refl;
}

early-Pieces : Pieces net two_pieces 1 (pos 5) 1 1 [] 0 early 4
unfolding scan
early-Pieces = piece early-Arrives refl no_piece

whole-PlainRequest : PlainRequest (early ++ late) (codes "GET / HTTP/1.1\r\nHost: a") (codes "/") []
unfolding scan
whole-PlainRequest = record {
  method = codes "GET";
  rest = codes "HTTP/1.1";
  lines = codes "Host: a" ∷ [];
  header_is = refl;
  is_request = record {
    text_is = refl;
    are_lines = ((cc, omega arith), (cc, omega arith));
    method_plain = omega arith;
    addr_plain = omega arith;
  };
  addressed = omega arith;
  unsized = refl;
  no_websocket = refl;
}

always_ok-Gives :
    (m : Mem) (r : HttpRequest) (w : ℕ) → Gives (answer one_route (codes "/")) r m w http_ok [] 0 w
unfolding known_status
always_ok-Gives m r w = record {
  response = http_result http_ok;
  left = m;
  ran = refl;
  known = refl;
  status_is = refl;
  plain = refl;
  payload = no_payload;
  kept = λ a bytes st. st;
  room = omega arith;
}

events-answered_example :
    (m' : Mem) × (events net two_pieces 1 crypto one_callback 2 new_connection large_mem 0
      ≡ done (some new_connection) m' 10)
    × (4000000 ≤ m'.room + (2 ^ 21 + 24576))
events-answered_example =
    events-answered net two_pieces 1 crypto one_callback one_route http_ok [] 0 7 new_connection
      large_mem 0 no_buffer early-Pieces late-Arrives (omega arith) whole-PlainRequest
      (record { rest = []; good = omega arith; callbacks_are = refl; count_is = refl })
      (λ m' r h room. always_ok-Gives m' r 7) (omega arith) (omega arith)

http_tls_ondata-partial_example :
    (b : Bytes) × (m' : Mem) × (http_tls_ondata net two_pieces crypto one_callback 1 new_connection
        large_mem 0
      ≡ done (some (record new_connection { buffer = b })) m' 4)
    × HasText m' b early
    × (4000000 ≤ m'.room + (2 ^ 20 + 12288))
unfolding scan
http_tls_ondata-partial_example =
    http_tls_ondata-partial net two_pieces crypto one_callback 1 new_connection large_mem 0
      no_buffer early-Arrives refl (omega arith)

abbrev one_page : Files ℕ
one_page = record {
  open_append = λ path w. (pos 3, w + 1);
  write_file = λ file bytes w. (tt, w + 1);
  open_read = λ path w. (pos 4, w + 1);
  read_file = λ file count w. (some (codes "<html>"), w + 1);
}

abbrev no_rows : Sqlite ℕ
no_rows = record {
  reset = λ st w. (pos 0, w + 1);
  bind_int64 = λ st n v w. (pos 0, w + 1);
  bind_text = λ st n v w. (pos 0, w + 1);
  bind_blob = λ st n v w. (pos 0, w + 1);
  step = λ st w. (sqlite_done, w + 1);
  column_int = λ st n w. (pos 0, w + 1);
  column_int64 = λ st n w. (pos 0, w + 1);
  column_bytes = λ st n w. (pos 0, w + 1);
  column_blob = λ st n w. (none, w + 1);
}

abbrev free_pair : HttpCallbackPair ℕ
free_pair = record { fun = always_ok; addr = bvoid }

abbrev new_server : HttpServer ℕ
new_server = record {
  callback =
      free_pair ∷ free_pair ∷ free_pair ∷ free_pair ∷ free_pair ∷ free_pair ∷ free_pair ∷ free_pair
      ∷ [];
  callbacks = 0;
}

events-http_callback_root_example :
    (server' : HttpServer ℕ) × (add_callbacks
        (pairs one_page no_rows (λ bytes. []) (λ i. pos 0) 1)
        new_server
        large_mem
        0
      ≡ done server' large_mem 0)
    × (m' : Mem) × (events net two_pieces 1 crypto server' 2 new_connection large_mem 0
        ≡ done (some new_connection) m' 12)
events-http_callback_root_example =
    events-http_callback_root one_page no_rows (λ bytes. []) (λ i. pos 0) 1 net two_pieces 1 crypto
      new_server (codes "<html>") new_connection large_mem 0 refl (omega arith) no_buffer
      early-Pieces late-Arrives (omega arith) whole-PlainRequest refl (omega arith)
