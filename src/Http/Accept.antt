-- ===== src/Http/Accept.antt =====
-- src/http.c: `http_websocket_accept`. The SHA-1 digest and the base64 text, with the line break that
-- OpenSSL puts behind it, are parameters.
pub mod Answered
pub mod Handshake
use sleepytext.Prelude.{ℕ, List, ◌++◌, not, set, length, take, if◌then◌else◌}
use sleepytext.Prelude.Int.{pos, same_int}
use sleepytext.Prelude.Text.{codes}
use sleepytext.Memory.{Action, pure, ◌>>=◌, ◌>>◌}
use sleepytext.Bytes.{bs, balloc}
use sleepytext.Bytes.Number.{btoi}
use sleepytext.Bytes.Print.{read_bytes, write_bytes}
use sleepytext.Http.{
  HttpRequest, HttpRawResponse, http_result, http_bad_request, http_switching_protocols,
  http_extract_param,
}

pub record Crypto : Type 0 where
  pub sha1 : List ℕ → List ℕ
  pub base64 : List ℕ → List ℕ

abbrev pub rfc6455 : List ℕ
rfc6455 = codes "258EAFA5-E914-47DA-95CA-C5AB0DC85B11"

module _ (crypto : Crypto) where
  -- What a client of version 13 is answered.
  unfoldable pub accept_key : HttpRequest → Action HttpRawResponse
  accept_key request = do
    key ← http_extract_param request.header (bs (codes "Sec-WebSocket-Key"))
    bytes ← read_bytes key.len key.ptr
    let digest = crypto.sha1 (bytes ++ rfc6455)
    enstatusd ← balloc 128
    let text = take enstatusd.len (crypto.base64 digest)
    write_bytes enstatusd.ptr text
    let result = http_result http_switching_protocols
    pure (record result {
      headers = 1;
      header_name = set result.header_name 0 (bs (codes "Sec-WebSocket-Accept"));
      header_val = set result.header_val 0 (record enstatusd { len = length text });
    })

  unfoldable pub http_websocket_accept : HttpRequest → Action HttpRawResponse
  unfolding accept_key
  http_websocket_accept request = do
    value ← http_extract_param request.header (bs (codes "Sec-WebSocket-Version"))
    version ← btoi value
    if not (same_int version (pos 13))
        then pure (http_result http_bad_request)
        else accept_key request
