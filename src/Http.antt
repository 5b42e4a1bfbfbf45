-- ===== src/Http.antt =====
-- src/http.c: requests and results. What the functions print to the log (`debug`, and the `write`
-- of the request to descriptor 0) is not modelled.
pub mod Accept
pub mod Header
pub mod Param
pub mod Request
pub mod Response
pub mod Websocket
use sleepytext.Prelude.{
  ℕ, zero, suc, ◌+◌, ◌-◌, ◌%◌, Bool, true, false, List, [], ◌∷◌, ltb, ◌==◌, if◌then◌else◌, not,
}
use sleepytext.Prelude.Int.{ℤ, pos, negsuc}
use sleepytext.Prelude.Text.{codes}
use sleepytext.Prelude.Words.{size_mod}
use sleepytext.Memory.{Action, pure, ◌>>=◌}
use sleepytext.Bytes.{Bytes, BFound, bs, bvoid, bfind, bslice}
use sleepytext.Bytes.Number.{btoi}

pub record HttpRequest : Type 0 where
  pub header : Bytes
  pub payload : Bytes
  pub addr : Bytes

pub data HttpResult : Type 0 where
  http_ok http_bad_request http_not_found http_forbidden : HttpResult
  http_switching_protocols http_internal_server_error http_last : HttpResult

abbrev pub http_max_headers : ℕ
http_max_headers = 8

-- The two arrays of `http_max_headers` views.
pub record HttpRawResponse : Type 0 where
  pub status : HttpResult
  pub payload : Bytes
  pub headers : ℕ
  pub header_val : List Bytes
  pub header_name : List Bytes

abbrev no_headers : List Bytes
no_headers = bvoid ∷ bvoid ∷ bvoid ∷ bvoid ∷ bvoid ∷ bvoid ∷ bvoid ∷ bvoid ∷ []

abbrev pub http_result : HttpResult → HttpRawResponse
http_result status = record {
  status = status;
  payload = bvoid;
  headers = 0;
  header_val = no_headers;
  header_name = no_headers;
}

abbrev pub crlf : List ℕ
crlf = b'\r' ∷ b'\n' ∷ []

abbrev pub crlf_crlf : List ℕ
crlf_crlf = b'\r' ∷ b'\n' ∷ b'\r' ∷ b'\n' ∷ []

abbrev pub content_length : List ℕ
content_length = codes "Content-Length: "

abbrev pub space : List ℕ
space = b' ' ∷ []

unfoldable pub http_extract_param : Bytes → Bytes → Action Bytes
http_extract_param header field = do
  f ← bfind header field
  g ← bfind (bslice f.after 2 0) (bs crlf)
  pure g.before

-- The result where more input is needed.
abbrev pub partial_request : HttpRequest
partial_request = record { header = bvoid; payload = bvoid; addr = bvoid }

-- An `int` converted to `size_t`.
abbrev pub to_size : ℤ → ℕ
to_size (pos n) = n % size_mod
to_size (negsuc n) = size_mod - 1 - n % size_mod

-- Whether the `Content-Length` header, if there is one, is the length of the payload.
unfoldable pub body_complete : Bytes → Bytes → Action Bool
body_complete header payload = do
  f ← bfind header (bs content_length)
  if ltb 0 f.found.len
      then (do
        g ← bfind f.after (bs crlf)
        contentlen ← btoi g.before
        pure (to_size contentlen == payload.len))
      else pure true

-- The address is what stands between the first two spaces of the header.
unfoldable pub request_addr : Bytes → Action Bytes
request_addr header = do f ← bfind header (bs space); g ← bfind f.after (bs space); pure g.before

unfoldable pub http_parse_request : Bytes → Action HttpRequest
unfolding body_complete request_addr
http_parse_request buffer = do
  f ← bfind buffer (bs crlf_crlf)
  if f.found.len == 0 then pure partial_request else (do
    complete ← body_complete f.before f.after
    if not complete then pure partial_request else (do
      addr ← request_addr f.before
      pure (record { header = f.before; payload = f.after; addr = addr })))
