-- ===== src/Connections/Served.antt =====
-- src/http_server.c: `http_tls_ondata` as what it does with the text that came in so far: a request
-- that is not complete is kept, and one that is complete is answered.
use mathlib.Core.Path.{subst}
use sleepytext.Prelude.{
  ℕ, ◌+◌, ◌^◌, ◌≤◌, ◌<◌, ◌≡◌, refl, sym, ◌∙◌, none, some, List, ◌++◌, length, arith,
}
use sleepytext.Prelude.Text.{codes}
use sleepytext.Prelude.Words.{int_max}
use sleepytext.Memory.{Mem, ok}
use sleepytext.Memory.Write.{at_heap}
use sleepytext.Bytes.Stored.{StandsAt-Views}
use sleepytext.Bytes.{Bytes, bvoid, view}
use sleepytext.Bytes.Views.{Views}
use sleepytext.Bytes.Find.{scan}
use sleepytext.Connections.{HttpTlsConnection, http_tls_ondata, response_to}
use sleepytext.Connections.Answers.{response_to-dispatch}
use sleepytext.Connections.Crunched.{crunch-partial, crunch-replied, replied}
use sleepytext.Connections.Flushed.{flushed, flush_tls-HasText}
use sleepytext.Connections.Received.{Arrives, http_tls_ondata-crunch}
use sleepytext.Connections.Replies.{Gives}
use sleepytext.Connections.Text.{HasText, no_buffer, buffered}
use sleepytext.Http.{HttpRequest, HttpResult, content_length, crlf_crlf, http_parse_request}
use sleepytext.Http.Accept.{Crypto}
use sleepytext.Http.Header.{join_lines}
use sleepytext.Http.Request.{
  IsRequest, Holding, first_line, http_parse_request_unsized, http_parse_request_partial, header_le,
}
use sleepytext.HttpServer.{HttpServer, HttpCallbackPair}
use sleepytext.HttpServer.Dispatch.{
  Route, AreRoutes, table, answer, http_server_callback_dispatch-answer,
}
use sleepytext.System.{done}
use sleepytext.System.Sockets.{Sockets}
use sleepytext.System.Tls.{Tls}

-- A complete request that neither names the length of its payload nor asks for a websocket: the header
-- made of its lines, the address of the first one, and the payload behind the header.
pub record PlainRequest (text header addr payload : List ℕ) : Type 0 where
  pub method : List ℕ
  pub rest : List ℕ
  pub lines : List (List ℕ)
  pub header_is : header ≡ join_lines (first_line method addr rest) lines
  pub is_request : IsRequest text method addr rest payload lines
  pub addressed : 0 < length addr
  pub unsized : scan content_length content_length header 0 ≡ none
  pub no_websocket :
      scan (codes "Sec-WebSocket-Version") (codes "Sec-WebSocket-Version") header 0 ≡ none

parses-PlainRequest :
    {m : Mem} {b : Bytes} {text header addr payload : List ℕ}
    → PlainRequest text header addr payload
    → Views m b text
    → length text ≤ int_max
    → (r : HttpRequest) × (http_parse_request b m ≡ ok r m)
      × Holding m r header payload addr
      × (length header ≤ int_max)
      × (0 < r.addr.len)
parses-PlainRequest {m} {text = text} {header} {addr} {payload} q v le =
    let (r, ran, holding) =
      http_parse_request_unsized q.lines q.is_request v le (rw q.header_is at q.unsized) in
    (
      r,
      ran,
      subst (λ h. Holding m r h payload addr) (sym q.header_is) holding,
      subst (λ h. length h ≤ int_max) (sym q.header_is)
          (header_le _ (crlf_crlf ++ payload) (rw q.is_request.text_is at le)),
      omega (arith, q.addressed, holding.addr_view.len_is),
    )

module _ {W : Type 0} (server : HttpServer W) where
  -- The server's callbacks are those of the routes.
  pub record Routed (routes : List (Route W)) : Type 0 where
    pub rest : List (HttpCallbackPair W)
    pub good : AreRoutes routes
    pub callbacks_are : server.callback ≡ table routes ++ rest
    pub count_is : server.callbacks ≡ length routes

module _ {W : Type 0} (net : Sockets W) (ssl : Tls W) (crypto : Crypto) (server : HttpServer W)
    (fuel : ℕ) where
  -- While the end of the header is not found in the text that came in so far, http_tls_ondata keeps the
  -- text in the buffer of the connection, sends what OpenSSL has for the socket, and changes nothing else
  -- of the connection, where the event brings some bytes, at most 4096, from which OpenSSL decrypts a
  -- text before it wants more; an event takes at most a fixed number of bytes of room, which there is.
  pub http_tls_ondata-partial :
      {s text : List ℕ} {w' : W} (con : HttpTlsConnection) (m : Mem) (w : W)
      → HasText m con.buffer s
      → Arrives net ssl fuel con.tcp.socket con.tls (length s) w text w'
      → scan crlf_crlf crlf_crlf (s ++ text) 0 ≡ none
      → 2 ^ 20 + 12288 ≤ m.room
      → (b : Bytes) × (m' : Mem) × (http_tls_ondata net ssl crypto server fuel con m w
          ≡ done (some (record con { buffer = b })) m' (flushed net ssl con.tcp.socket con.tls w'))
        × HasText m' b (s ++ text)
        × (m.room ≤ m'.room + (2 ^ 20 + 12288))
  http_tls_ondata-partial {s} {text} {w'} con m w h arrives missing room =
      let (a, m1, bytes, ran, st, f, room1) =
        http_tls_ondata-crunch net ssl fuel con crypto server m w h arrives (omega arith) in
      let con1 : HttpTlsConnection = record con {
        buffer = view (at_heap a 0) (length (s ++ text));
      } in
      let parses =
        http_parse_request_partial (StandsAt-Views st f.stands) (omega (arith, f.fits)) missing in
      let crunched = crunch-partial net ssl con1 crypto server (length text) m1 w' parses in
      let (m2, flushes, h2, room2) =
        flush_tls-HasText net ssl con1 m1 w' (buffered a st f) (omega (arith, room1)) in
      (con1.buffer, m2, ran ∙ rw (crunched, flushes) refl, h2, omega (arith, room1, room2))

  responds :
      {m : Mem} {w : W} {r : HttpRequest} {routes : List (Route W)}
      {text header addr payload : List ℕ} {status : HttpResult} {ps : List ℕ} {spent : ℕ} {w' : W}
      → Routed server routes
      → PlainRequest text header addr payload
      → length header ≤ int_max
      → Holding m r header payload addr
      → Gives (answer routes addr) r m w status ps spent w'
      → Gives (response_to net ssl crypto server) r m w status ps spent w'
  responds {m} {w} {r} {routes} {addr = addr} routed q le h g = record {
    response = g.response;
    left = g.left;
    ran =
        response_to-dispatch {m = m} r crypto net ssl server w h.header_view le q.no_websocket
        ∙ http_server_callback_dispatch-answer routes routed.rest server r addr {m = m} w
            routed.good routed.callbacks_are routed.count_is h.addr_holds h.addr_view.len_is
        ∙ g.ran;
    known = g.known;
    status_is = g.status_is;
    plain = g.plain;
    payload = g.payload;
    kept = g.kept;
    room = g.room;
  }

  pub http_tls_ondata-answered :
      {s text : List ℕ} {w1 : W} {header addr payload : List ℕ} (routes : List (Route W))
      (status : HttpResult) (ps : List ℕ) (spent : ℕ) (w2 : W) (con : HttpTlsConnection) (m : Mem)
      (w : W)
      → HasText m con.buffer s
      → Arrives net ssl fuel con.tcp.socket con.tls (length s) w text w1
      → 0 < length text
      → PlainRequest (s ++ text) header addr payload
      → Routed server routes
      → ((m' : Mem) (r : HttpRequest)
          → Holding m' r header payload addr
          → 4096 + spent ≤ m'.room
          → Gives (answer routes addr) r m' w1 status ps spent w2)
      → length ps ≤ int_max
      → 2 ^ 20 + 16384 + spent ≤ m.room
      → (m' : Mem) × (http_tls_ondata net ssl crypto server fuel con m w
          ≡ done
              (some (record con { buffer = bvoid }))
              m'
              (flushed net ssl con.tcp.socket con.tls (replied ssl con.tls status ps w2)))
        × (m.room ≤ m'.room + (2 ^ 20 + 12288 + spent))
  http_tls_ondata-answered {s} {text} {w1} {header = header} {addr = addr} routes status ps spent w2
        con m w h arrives new q routed gives short room =
      let (a, m1, bytes, ran, st, f, room1) =
        http_tls_ondata-crunch net ssl fuel con crypto server m w h arrives (omega arith) in
      let k = length (s ++ text) in
      let con1 : HttpTlsConnection = record con { buffer = view (at_heap a 0) k } in
      let le : length (s ++ text) ≤ int_max = omega (arith, f.fits) in
      let (r, parses, holding, header_short, addressed) =
        parses-PlainRequest q (StandsAt-Views st f.stands) le in
      let responds' =
        responds routed q header_short holding (gives m1 r holding (omega (arith, room1))) in
      let (m2, crunched, room2) =
        crunch-replied net ssl con1 crypto server (length text) a bytes k parses new addressed
          responds' refl st short (omega (arith, room1)) in
      let con2 : HttpTlsConnection = record con { buffer = bvoid } in
      let (m3, flushes, h3, room3) =
        flush_tls-HasText net ssl con2 m2 (replied ssl con.tls status ps w2) no_buffer
          (omega (arith, room1, room2)) in
      (m3, ran ∙ rw (crunched, flushes) refl, omega (arith, room1, room2, room3))
