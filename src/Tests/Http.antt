-- ===== src/Tests/Http.antt =====
-- src/http.c at concrete inputs.
use sleepytext.Prelude.{ℕ, ◌≡◌, refl, false, length, List, [], ◌∷◌, ◌++◌, arith}
use sleepytext.Prelude.Text.{codes}
use sleepytext.Prelude.Int.{pos}
use sleepytext.Memory.{ok}
use sleepytext.Bytes.{Bytes, bs, bvoid}
use sleepytext.Bytes.Views.{Views, bs-Views}
use sleepytext.Bytes.Find.{scan}
use sleepytext.Bytes.Number.Decimal.{decimal}
use sleepytext.Http.{HttpRequest, http_parse_request, http_extract_param, crlf_crlf}
use sleepytext.Http.Header.{join_lines}
use sleepytext.Http.Param.{http_extract_param_inner, http_extract_param_last}
use sleepytext.Http.Request.{
  first_line, IsRequest, Holding, http_parse_request_unsized, http_parse_request_sized,
}
use sleepytext.Http.Websocket.{
  HttpWebsocketFrame, http_websocket_parse, http_websocket_parse_header, with_header,
}
use sleepytext.Http.Websocket.Frames.{
  HeaderResult, http_websocket_parse_idle, http_websocket_parse_header_total,
  http_websocket_parse_header_rfc,
}
use sleepytext.Memory.Write.{at_heap, written}
use sleepytext.Bytes.Fresh.{allocated}
use sleepytext.Memory.Holds.{Holds}
use sleepytext.Bytes.{view}
use sleepytext.Http.{http_result, http_not_found}
use sleepytext.Bytes.Print.{show_int}
use sleepytext.Http.Response.{http_assemble_response, known_status}
use sleepytext.Http.Response.Plain.{http_assemble_response-header_text}
use sleepytext.Tests.Bytes.{mem}

abbrev get : List ℕ
get = codes "GET"

abbrev path : List ℕ
path = codes "/x"

abbrev version : List ℕ
version = codes "HTTP/1.1"

abbrev host : List ℕ
host = codes "Host: a"

abbrev size_line : List ℕ
size_line = codes "Content-Length: 2"

abbrev origin : List ℕ
origin = codes "Origin: b"

abbrev plain_header : List ℕ
plain_header = join_lines (first_line get path version) (host ∷ [])

abbrev plain_text : List ℕ
plain_text = plain_header ++ (crlf_crlf ++ codes "hi")

abbrev sized_header : List ℕ
sized_header = join_lines (first_line get path version) (host ∷ size_line ∷ origin ∷ [])

abbrev sized_text : List ℕ
sized_text = sized_header ++ (crlf_crlf ++ codes "hi")

plain-IsRequest : IsRequest plain_text get path version (codes "hi") (host ∷ [])
plain-IsRequest = record {
  text_is = refl;
  are_lines = ((cc, omega arith), (cc, omega arith));
  method_plain = omega arith;
  addr_plain = omega arith;
}

sized-IsRequest :
    IsRequest sized_text get path version (codes "hi") (host ∷ size_line ∷ origin ∷ [])
sized-IsRequest = record {
  text_is = refl;
  are_lines = ((cc, omega arith), ((cc, omega arith), ((cc, omega arith), (cc, omega arith))));
  method_plain = omega arith;
  addr_plain = omega arith;
}

http_parse_request_unsized_example :
    (r : HttpRequest) × (http_parse_request (bs plain_text) mem ≡ ok r mem)
    × Holding mem r plain_header (codes "hi") path
unfolding scan
http_parse_request_unsized_example =
    http_parse_request_unsized (host ∷ []) plain-IsRequest (bs-Views plain_text) (omega arith) refl

http_parse_request_sized_example :
    (r : HttpRequest) × (http_parse_request (bs sized_text) mem ≡ ok r mem)
    × Holding mem r sized_header (codes "hi") path
unfolding scan decimal
http_parse_request_sized_example =
    http_parse_request_sized (host ∷ size_line ∷ origin ∷ []) (codes "GET /x HTTP/1.1\r\nHost: a\r")
      (codes "2") origin {v = 2} sized-IsRequest (bs-Views sized_text) (omega arith) refl refl refl
      (omega arith)

abbrev cookie : List ℕ
cookie = codes "Cookie"

abbrev cookies : List ℕ
cookies = codes "GET / HTTP/1.1\r\nCookie: a=1\r\nHost: b"

http_extract_param_inner_example :
    (r : Bytes) × (http_extract_param (bs cookies) (bs cookie) mem ≡ ok r mem)
    × Views mem r (codes "a=1")
unfolding scan
http_extract_param_inner_example =
    http_extract_param_inner b'C' (codes "ookie") (codes "GET / HTTP/1.1\r") (codes "a=1") b':' b' '
      (codes "Host: b") (bs-Views cookies) (bs-Views cookie) (omega arith) refl (omega arith)
      (omega arith)

http_extract_param_last_example :
    (r : Bytes) × (http_extract_param (bs (codes "GET /\r\nCookie: a=1")) (bs cookie) mem
      ≡ ok r mem)
    × Views mem r (codes "a=1")
unfolding scan
http_extract_param_last_example =
    http_extract_param_last b'C' (codes "ookie") (codes "GET /\r") (codes "a=1") b':' b' '
      (bs-Views _) (bs-Views cookie) (omega arith) refl (omega arith) (omega arith)

-- "Hi" under the key 1 2 3 4, as the client sends it.
abbrev frame : HttpWebsocketFrame
frame = record {
  len = 0;
  maskbytes = 0 ∷ 0 ∷ 0 ∷ 0 ∷ [];
  parsed_header = false;
  buffer = 129 ∷ 130 ∷ 1 ∷ 2 ∷ 3 ∷ 4 ∷ 73 ∷ 107 ∷ 0 ∷ 0 ∷ 0 ∷ 0 ∷ 0 ∷ 0 ∷ [];
  header_len = 8;
  state = 0;
}

http_websocket_parse_idle_example :
    http_websocket_parse 1 (bs (codes "abc")) bvoid frame mem
    ≡ ok (record { code = pos 0; out = bvoid; frame = frame }) mem
http_websocket_parse_idle_example = http_websocket_parse_idle 0 (bs (codes "abc")) bvoid frame mem

http_websocket_parse_header_total_example :
    (r : ℕ) × (f : HttpWebsocketFrame) × (http_websocket_parse_header frame mem ≡ ok (r, f) mem)
    × HeaderResult frame r f
http_websocket_parse_header_total_example =
    http_websocket_parse_header_total frame mem (record { size = refl; bytes = omega arith })

http_websocket_parse_header_rfc_example :
    http_websocket_parse_header frame mem
    ≡ ok (8, with_header (record frame { state = 0 }) 2 (3 ∷ 4 ∷ 73 ∷ 107 ∷ [])) mem
http_websocket_parse_header_rfc_example =
    http_websocket_parse_header_rfc frame mem 129 2 1 2 3 4 73 107 (0 ∷ 0 ∷ 0 ∷ 0 ∷ 0 ∷ 0 ∷ []) refl
      (omega arith) (omega arith)

http_assemble_response-header_text_example :
    (cs : List ℕ) × (http_assemble_response (http_result http_not_found) mem
      ≡ ok
          (record { header = view (at_heap 1 0) 45; payload = bvoid })
          (written (allocated 4096 mem) 1 cs))
    × (length cs ≡ 4096)
    × Holds
        (written (allocated 4096 mem) 1 cs)
        (at_heap 1 0)
        (codes "HTTP/1.1 404 Not Found\r\nContent-Length: 0\r\n\r\n")
unfolding known_status show_int
http_assemble_response-header_text_example =
    http_assemble_response-header_text (http_result http_not_found) mem refl (omega arith)
