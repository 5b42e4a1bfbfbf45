-- ===== src/Start/Served.antt =====
-- src/server.c: the page of `root` on its way from the file to the client.
use sleepytext.Prelude.{
  ℕ, suc, ◌+◌, ◌*◌, ◌^◌, ◌≤◌, ◌<◌, ◌≡◌, refl, some, List, [], ◌++◌, length, length-take, take,
  arith,
}
use sleepytext.Prelude.Int.{ℤ}
use sleepytext.Prelude.Text.{codes}
use sleepytext.Memory.{Mem, fill}
use sleepytext.Memory.Overwrite.{length-fill, overwrite-StandsAt}
use sleepytext.Memory.Write.{at_heap, written}
use sleepytext.Bytes.{bvoid, view}
use sleepytext.Bytes.Fresh.{allocated}
use sleepytext.Bytes.Stored.{allocated-Stored, fresh-Stored, written-Stored, written_self-Stored}
use sleepytext.Connections.{HttpTlsConnection}
use sleepytext.Connections.Crunched.{replied}
use sleepytext.Connections.Flushed.{flushed}
use sleepytext.Connections.Pieces.{Pieces, events, events-answered}
use sleepytext.Connections.Received.{Arrives}
use sleepytext.Connections.Replies.{Gives, payload_at}
use sleepytext.Connections.Served.{PlainRequest, Routed}
use sleepytext.Connections.Text.{HasText}
use sleepytext.Http.{HttpRequest, http_ok}
use sleepytext.Http.Accept.{Crypto}
use sleepytext.Http.Response.{known_status}
use sleepytext.HttpServer.{HttpServer}
use sleepytext.Server.Pages.{http_callback_root}
use sleepytext.Server.Pages.Read.{page_response, page_of, http_callback_root-written}
use sleepytext.Server.Sql.{Sqlite}
use sleepytext.Start.{add_callbacks, pairs}
use sleepytext.Start.Table.{main_routes, main_AreRoutes, add_callbacks-IsFilled}
use sleepytext.System.{done}
use sleepytext.System.Files.{Files}
use sleepytext.System.Sockets.{Sockets}
use sleepytext.System.Tls.{Tls}

module _ {W : Type 0} (files : Files W) where
  -- The world once the page was read
  abbrev pub page_read : W → W
  page_read w =
      let opened = files.open_read (codes "html/main.html") w in
      (files.read_file opened.0 (2 ^ 20) opened.1).1

  http_callback_root-Gives :
      (request : HttpRequest) (text : List ℕ) (m : Mem) (w : W)
      → 2 ^ 20 ≤ m.room
      → let opened = files.open_read (codes "html/main.html") w in
        (files.read_file opened.0 (2 ^ 20) opened.1).0 ≡ some text
        → Gives
            (http_callback_root files)
            request
            m
            w
            http_ok
            (take (2 ^ 20) text)
            (2 ^ 20)
            (page_read w)
  unfolding known_status written
  http_callback_root-Gives request text m w room read =
      let t = take (2 ^ 20) text in
      let cs = fill (m.garbage m.next) 0 (2 ^ 20) in
      let fits : 0 + length t ≤ length cs =
        omega (arith, length-take (2 ^ 20) text, length-fill (m.garbage m.next) 0 (2 ^ 20)) in
      record {
        response = page_response (view (at_heap m.next 0) (length t));
        left = written (allocated (2 ^ 20) m) m.next (page_of files text m);
        ran = (http_callback_root-written files request text m w room read).0;
        known = refl;
        status_is = refl;
        plain = refl;
        payload =
            payload_at m.next (omega arith)
              (written_self-Stored (page_of files text m) (fresh-Stored (2 ^ 20) m))
              (overwrite-StandsAt cs 0 t fits);
        kept = λ a bytes st.
            written-Stored m.next (page_of files text m) (omega (arith, st.older))
              (allocated-Stored (2 ^ 20) st);
        room = omega arith;
      }

  module _ (db : Sqlite W) (scan : List ℕ → List ℤ) (stack : ℕ → ℤ) (rows : ℕ) where
    add_callbacks-Routed :
        (s : HttpServer W) (m : Mem) (w : W)
        → s.callbacks ≡ 0
        → 7 ≤ length s.callback
        → (s' : HttpServer W) × (add_callbacks (pairs files db scan stack rows) s m w ≡ done s' m w)
          × Routed s' (main_routes files db scan stack rows)
    unfolding pairs
    add_callbacks-Routed s m w none_yet room =
        let (s', ran, rest, filled) =
          add_callbacks-IsFilled (main_routes files db scan stack rows) [] s.callback s m w
            (ground arith) room (refl, none_yet) in
        (
          s',
          ran,
          record {
            rest = rest;
            good = main_AreRoutes files db scan stack rows;
            callbacks_are = filled.0;
            count_is = filled.1;
          },
        )

    -- On the server that `main` makes, from one with no callbacks and 7 free slots or more, a client that
    -- asks for `/` in pieces gets html/main.html: after events that bring all but the end of its request
    -- and one that completes it, where the read of the file gives a text, OpenSSL has been given the
    -- header of a response of status 200 with the length of the page and then the page, the text or its
    -- first 2^20 bytes, and what it has for the socket has been sent. The end of the header is not found
    -- before the last piece, the request neither names the length of its payload nor asks for a
    -- websocket, each event brings some bytes, at most 4096, from which OpenSSL decrypts a text before it
    -- wants more, and there is room for a fixed number of bytes for each event, the header and the page.
    pub events-http_callback_root :
        (net : Sockets W) (ssl : Tls W) (fuel : ℕ) (crypto : Crypto) {n : ℕ} {s s' text : List ℕ}
        {w1 w2 : W} {header payload : List ℕ} (server : HttpServer W) (page : List ℕ)
        (con : HttpTlsConnection) (m : Mem) (w : W)
        → server.callbacks ≡ 0
        → 7 ≤ length server.callback
        → HasText m con.buffer s
        → Pieces net ssl fuel con.tcp.socket con.tls n s w s' w1
        → Arrives net ssl fuel con.tcp.socket con.tls (length s') w1 text w2
        → 0 < length text
        → PlainRequest (s' ++ text) header (codes "/") payload
        → (let opened = files.open_read (codes "html/main.html") w2 in
            (files.read_file opened.0 (2 ^ 20) opened.1).0 ≡ some page)
        → suc n * (2 ^ 20 + 12288) + 4096 + 2 ^ 20 ≤ m.room
        → (server' : HttpServer W) × (add_callbacks (pairs files db scan stack rows) server m w
            ≡ done server' m w)
          × (m' : Mem) × (events net ssl fuel crypto server' (n + 1) con m w
              ≡ done (some (record con { buffer = bvoid })) m' (
                  flushed net ssl con.tcp.socket con.tls
                    (replied ssl con.tls http_ok (take (2 ^ 20) page) (page_read w2))))
    events-http_callback_root net ssl fuel crypto {w2 = w2} server page con m w none_yet slots h
          pieces last new q read room =
        let (server', ran, routed) = add_callbacks-Routed server m w none_yet slots in
        let (m', served, room') =
          events-answered net ssl fuel crypto server' (main_routes files db scan stack rows) http_ok
            (take (2 ^ 20) page) (2 ^ 20) (page_read w2) con m w h pieces last new q routed
            (λ m1 r holding room1. http_callback_root-Gives r page m1 w2 (omega arith) read)
            (omega (arith, length-take (2 ^ 20) page)) room in
        (server', ran, m', served)
