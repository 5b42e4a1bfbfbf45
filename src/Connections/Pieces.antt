-- ===== src/Connections/Pieces.antt =====
-- src/http_server.c: a request that comes in pieces. The state of a connection between two events is
-- abstracted to the text that came in so far.
use sleepytext.Prelude.{
  ℕ, zero, suc, ◌+◌, ◌*◌, ◌^◌, ◌≤◌, ◌<◌, ◌≡◌, refl, ap, ◌∙◌, Option, none, some, List, ◌++◌, length,
  arith,
}
use sleepytext.Prelude.Int.{ℤ}
use sleepytext.Prelude.Words.{int_max}
use sleepytext.Memory.{Mem}
use sleepytext.Bytes.{Bytes, bvoid}
use sleepytext.Bytes.Find.{scan}
use sleepytext.Connections.{HttpTlsConnection, http_tls_ondata}
use sleepytext.Connections.Crunched.{replied}
use sleepytext.Connections.Flushed.{flushed}
use sleepytext.Connections.Received.{Arrives}
use sleepytext.Connections.Replies.{Gives}
use sleepytext.Connections.Served.{
  http_tls_ondata-partial, http_tls_ondata-answered, PlainRequest, Routed,
}
use sleepytext.Connections.Text.{HasText}
use sleepytext.Http.{HttpRequest, HttpResult, crlf_crlf}
use sleepytext.Http.Accept.{Crypto}
use sleepytext.Http.Request.{Holding}
use sleepytext.HttpServer.{HttpServer}
use sleepytext.HttpServer.Dispatch.{Route, answer}
use sleepytext.System.{Io, return, done, ◌>>=◌}
use sleepytext.System.Sockets.{Sockets}
use sleepytext.System.Tls.{Tls}

module _ {W : Type 0} (net : Sockets W) (ssl : Tls W) (fuel : ℕ) where
  -- In some events the text `s` grows to `s'`, and the end of the header is not found in it.
  pub data Pieces (socket : ℤ) (tls : ℕ) : ℕ → List ℕ → W → List ℕ → W → Type 0 where
    no_piece : {s : List ℕ} {w : W} → Pieces socket tls 0 s w s w
    piece :
        {n : ℕ} {s text : List ℕ} {w w1 : W} {s' : List ℕ} {w' : W}
        → Arrives net ssl fuel socket tls (length s) w text w1
        → scan crlf_crlf crlf_crlf (s ++ text) 0 ≡ none
        → Pieces socket tls n (s ++ text) (flushed net ssl socket tls w1) s' w'
        → Pieces socket tls (suc n) s w s' w'

  module _ (crypto : Crypto) (server : HttpServer W) where
    -- The next events of a connection, up to the one that closes it.
    unfoldable pub events : ℕ → HttpTlsConnection → Io W (Option HttpTlsConnection)
    events zero con = return (some con)
    events (suc n) con = do
      left ← http_tls_ondata net ssl crypto server fuel con
      elim left [ none ↦ return none | some con' ↦ events n con' ]

    events-Pieces :
        (n k : ℕ) (con : HttpTlsConnection) (m : Mem) {s : List ℕ} {w : W} {s' : List ℕ} {w' : W}
        → Pieces con.tcp.socket con.tls n s w s' w'
        → HasText m con.buffer s
        → n * (2 ^ 20 + 12288) ≤ m.room
        → (b : Bytes) × (m' : Mem) × (events (n + k) con m w
            ≡ events k (record con { buffer = b }) m' w')
          × HasText m' b s'
          × (m.room ≤ m'.room + n * (2 ^ 20 + 12288))
    unfolding events
    events-Pieces zero k con m {w = w} no_piece h room =
        (con.buffer, m, ap (λ i. events i con m w) (omega arith), h, omega arith)
    events-Pieces (suc n) k con m {w = w} (piece {w1 = w1} arrives missing more) h room =
        let next : suc n + k ≡ suc (n + k) = omega arith in
        let (b1, m1, ran1, h1, room1) =
          http_tls_ondata-partial net ssl crypto server fuel con m w h arrives missing
            (omega arith) in
        let (b2, m2, ran2, h2, room2) =
          events-Pieces n k (record con { buffer = b1 }) m1 more h1 (omega (arith, room1)) in
        (b2, m2, ap (λ i. events i con m w) next ∙ rw ran1 ran2, h2, omega (arith, room1, room2))

    -- A request that comes in pieces, such that the end of the header is not found before the last one, and
    -- which neither names the length of its payload nor asks for a websocket, is answered at the event that
    -- completes it. On a connection that holds `s`, after events that make it `s'` and one whose text
    -- completes the request, what the callback of the first matching route answers, a response without
    -- header fields and with a payload of at most 2^31 - 1 bytes that leaves the objects that were there,
    -- has been given to OpenSSL, header first, what OpenSSL then has for the socket has been sent, and the
    -- buffer is freed. Each event brings some bytes, at most 4096, from which OpenSSL decrypts a text in
    -- as many reads as the fuel at most before it wants more. There is room for a fixed number of bytes
    -- for each event, 4096 bytes for the header and what the callback takes.
    pub events-answered :
        {n : ℕ} {s s' text : List ℕ} {w1 w2 : W} {header addr payload : List ℕ}
        (routes : List (Route W)) (status : HttpResult) (ps : List ℕ) (spent : ℕ) (w3 : W)
        (con : HttpTlsConnection) (m : Mem) (w : W)
        → HasText m con.buffer s
        → Pieces con.tcp.socket con.tls n s w s' w1
        → Arrives net ssl fuel con.tcp.socket con.tls (length s') w1 text w2
        → 0 < length text
        → PlainRequest (s' ++ text) header addr payload
        → Routed server routes
        → ((m' : Mem) (r : HttpRequest)
            → Holding m' r header payload addr
            → 4096 + spent ≤ m'.room
            → Gives (answer routes addr) r m' w2 status ps spent w3)
        → length ps ≤ int_max
        → suc n * (2 ^ 20 + 12288) + 4096 + spent ≤ m.room
        → (m' : Mem) × (events (n + 1) con m w
            ≡ done
                (some (record con { buffer = bvoid }))
                m'
                (flushed net ssl con.tcp.socket con.tls (replied ssl con.tls status ps w3)))
          × (m.room ≤ m'.room + (suc n * (2 ^ 20 + 12288) + spent))
    unfolding events
    events-answered {n} {w1 = w1} routes status ps spent w3 con m w h pieces last new q routed gives
          short room =
        let (b, m1, ran, h1, room1) = events-Pieces n 1 con m pieces h (omega arith) in
        let (m2, ran', room2) =
          http_tls_ondata-answered net ssl crypto server fuel routes status ps spent w3
            (record con { buffer = b }) m1 w1 h1 last new q routed gives short
            (omega (arith, room1)) in
        (m2, ran ∙ rw ran' refl, omega (arith, room1, room2))
