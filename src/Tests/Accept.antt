-- ===== src/Tests/Accept.antt =====
-- src/http.c: the answer to a client that asks for a websocket, at a concrete header.
use sleepytext.Memory.{Mem, ◌>>=◌}
use sleepytext.Http.Accept.{Crypto, rfc6455, http_websocket_accept}
use sleepytext.Http.Accept.Answered.{HasField, switching, with_text, http_websocket_accept-answered}
use sleepytext.Http.Accept.Handshake.{handshake_text, http_websocket_accept-handshake}
use sleepytext.Prelude.{ℕ, ◌≡◌, refl, List, ◌++◌, arith}
use sleepytext.Prelude.Text.{codes}
use sleepytext.Memory.{ok}
use sleepytext.Bytes.{bs, bvoid}
use sleepytext.Bytes.Views.{bs-Views}
use sleepytext.Bytes.Find.{scan}
use sleepytext.Bytes.Number.Decimal.{decimal}
use sleepytext.Http.{HttpRequest}
use sleepytext.Memory.Write.{at_heap}
use sleepytext.Memory.Holds.{Holds}
use sleepytext.Bytes.{view}
use sleepytext.Http.Response.{http_assemble_response}
use sleepytext.Tests.Bytes.{mem}

abbrev upgrade_header : List ℕ
upgrade_header =
    codes "GET /x HTTP/1.1\r\nSec-WebSocket-Key: abc\r\nSec-WebSocket-Version: 13\r\nHost: a"

abbrev upgrade : HttpRequest
upgrade = record { header = bs upgrade_header; payload = bvoid; addr = bvoid }

abbrev plain_crypto : Crypto
plain_crypto = record { sha1 = λ bytes. bytes; base64 = λ bytes. bytes }

abbrev zero_mem : Mem
zero_mem = record mem { room = 10000; garbage = λ a i. 0 }

key-HasField : HasField upgrade_header (codes "Sec-WebSocket-Key") (codes "abc")
unfolding scan
key-HasField = record {
  before = codes "GET /x HTTP/1.1\r";
  rest = codes "Sec-WebSocket-Version: 13\r\nHost: a";
  header_is = refl;
  first = refl;
  plain = omega arith;
}

version-HasField : HasField upgrade_header (codes "Sec-WebSocket-Version") (codes "13")
unfolding scan
version-HasField = record {
  before = codes "GET /x HTTP/1.1\r\nSec-WebSocket-Key: abc\r";
  rest = codes "Host: a";
  header_is = refl;
  first = refl;
  plain = omega arith;
}

http_websocket_accept-answered_example :
    http_websocket_accept plain_crypto upgrade zero_mem
    ≡ ok (switching (view (at_heap 1 0) 39)) (with_text (codes "abc" ++ rfc6455) zero_mem)
unfolding decimal
http_websocket_accept-answered_example =
    http_websocket_accept-answered plain_crypto upgrade {v = 13} (bs-Views upgrade_header)
      (omega arith) version-HasField refl (omega arith) key-HasField (omega arith)

http_websocket_accept-handshake_example :
    (m' : Mem) × ((http_websocket_accept plain_crypto upgrade >>= http_assemble_response) zero_mem
      ≡ ok (record { header = view (at_heap 2 0) 140; payload = bvoid }) m')
    × Holds m' (at_heap 2 0) (handshake_text (codes "abc" ++ rfc6455))
unfolding decimal
http_websocket_accept-handshake_example =
    http_websocket_accept-handshake plain_crypto upgrade (bs-Views upgrade_header) (omega arith)
      version-HasField refl key-HasField (omega arith) (omega arith) (omega arith) refl
