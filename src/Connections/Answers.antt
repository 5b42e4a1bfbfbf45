-- ===== src/Connections/Answers.antt =====
-- src/http_server.c: a request that does not ask for a websocket goes to the callbacks.
use sleepytext.Prelude.{ℕ, ◌≤◌, ◌≡◌, refl, none, List, [], length, arith}
use sleepytext.Prelude.Text.{codes}
use sleepytext.Prelude.Words.{int_max}
use sleepytext.Prelude.Int.{pos}
use sleepytext.Memory.{Mem, ok}
use sleepytext.Memory.Holds.{nil}
use sleepytext.Bytes.{bvoid}
use sleepytext.Bytes.Find.{scan}
use sleepytext.Bytes.Number.{btoi}
use sleepytext.Bytes.Number.Decimal.{btoi-decimal, decimal}
use sleepytext.Bytes.Views.{Views, bs-Views}
use sleepytext.Connections.{response_to}
use sleepytext.Http.{HttpRequest, http_result, http_bad_request}
use sleepytext.Http.Accept.{Crypto, http_websocket_accept}
use sleepytext.Http.Param.{http_extract_param_missing}
use sleepytext.HttpServer.{HttpServer, http_server_callback_dispatch}
use sleepytext.System.Sockets.{Sockets}
use sleepytext.System.Tls.{Tls}

btoi_nothing : (m : Mem) → btoi bvoid m ≡ ok (pos 0) m
unfolding decimal
btoi_nothing m =
    btoi-decimal {m = m} {b = bvoid} {xs = []} (record { holds = nil; len_is = refl }) (omega arith)
      refl (omega arith)

module _ {m : Mem} (request : HttpRequest) {xs : List ℕ} (crypto : Crypto) where
  http_websocket_accept_refused :
      Views m request.header xs
      → length xs ≤ int_max
      → scan (codes "Sec-WebSocket-Version") (codes "Sec-WebSocket-Version") xs 0 ≡ none
      → http_websocket_accept crypto request m ≡ ok (http_result http_bad_request) m
  unfolding http_websocket_accept
  http_websocket_accept_refused v le missing =
      rw
        (
          http_extract_param_missing b'S' (codes "ec-WebSocket-Version") v
              (bs-Views (codes "Sec-WebSocket-Version")) le missing,
          btoi_nothing m,
        )
        refl

  -- A request in whose header, of at most 2^31 - 1 bytes, no `Sec-WebSocket-Version` is found gets the
  -- answer of the callbacks, not that of a websocket.
  pub response_to-dispatch :
      {W : Type 0} (net : Sockets W) (ssl : Tls W) (server : HttpServer W) (w : W)
      → Views m request.header xs
      → length xs ≤ int_max
      → scan (codes "Sec-WebSocket-Version") (codes "Sec-WebSocket-Version") xs 0 ≡ none
      → response_to net ssl crypto server request m w
        ≡ http_server_callback_dispatch server request m w
  unfolding response_to
  response_to-dispatch net ssl server w v le missing =
      rw (http_websocket_accept_refused v le missing) refl
