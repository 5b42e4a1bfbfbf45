-- ===== src/Tests/Network.antt =====
-- src/epoll.c, src/http_server.c and src/tls.c at concrete inputs.
use sleepytext.Prelude.{ℕ, ◌+◌, ◌≤◌, none, some, [], ◌∷◌, arith}
use sleepytext.Prelude.Int.{pos}
use sleepytext.Prelude.Text.{codes}
use sleepytext.Memory.Write.{at_heap}
use sleepytext.Bytes.{view}
use sleepytext.Connections.{HttpTlsConnection}
use sleepytext.Epoll.{Objects, listener, connection, put, epoll_listen}
use sleepytext.Epoll.Buffers.{AllValid, put-AllValid, epoll_listen-AllValid}
use sleepytext.Http.Accept.{Crypto}
use sleepytext.HttpServer.{HttpServer}
use sleepytext.System.Ensures.{Ensures, Post}
use sleepytext.System.Sockets.{Sockets}
use sleepytext.System.Tls.{Tls}
use sleepytext.TlsLayer.{tls_ondata}
use sleepytext.TlsLayer.Bounds.{tls_ondata-bound}
use sleepytext.Tests.Bytes.{mem}

-- The world counts the calls. Each round has an event of the listener and one of a connection, and each
-- read gives a piece of a request until OpenSSL wants more.
abbrev pub net : Sockets ℕ
net = record {
  socket = λ w. (pos 3, w + 1);
  setsockopt = λ fd option w. (pos 0, w + 1);
  bind = λ fd port w. (pos 0, w + 1);
  listen = λ fd count w. (pos 0, w + 1);
  accept = λ fd w. ((pos 5, []), w + 1);
  close = λ fd w. (pos 0, w + 1);
  recv = λ fd count w. (some (codes "sealed"), w + 1);
  send = λ fd bytes w. (pos 0, w + 1);
  epoll_create = λ w. (pos 4, w + 1);
  epoll_add_event = λ epoll fd p w. (pos 0, w + 1);
  epoll_wait = λ epoll count w.
      (some (record { events = 1; pointer = 0 } ∷ record { events = 1; pointer = 1 } ∷ []), w + 1);
  time = λ w. (0, w + 1);
}

abbrev pub ssl : Tls ℕ
ssl = record {
  ssl_new = λ ctx w. (1, w + 1);
  bio_new = λ w. (2, w + 1);
  ssl_set_bio = λ tls r b w. (tt, w + 1);
  ssl_set_accept_state = λ tls w. (tt, w + 1);
  ssl_free = λ tls w. (tt, w + 1);
  rbio_write = λ tls bytes w. (pos 6, w + 1);
  wbio_read = λ tls count w. (none, w + 1);
  ssl_read = λ tls count w. (some (codes "GET / HTTP/1.1"), w + 1);
  ssl_get_error = λ tls answer w. 2;
  ssl_write = λ tls bytes w. (pos 1, w + 1);
  ctx_new = λ w. (1, w + 1);
  use_certificate_file = λ ctx path w. (pos 1, w + 1);
  use_private_key_file = λ ctx path w. (pos 1, w + 1);
  set_cipher_list = λ ctx names w. (pos 1, w + 1);
}

abbrev pub crypto : Crypto
crypto = record { sha1 = λ bytes. bytes; base64 = λ bytes. bytes }

abbrev nobody : HttpServer ℕ
nobody = record { callback = []; callbacks = 0 }

abbrev open_connection : HttpTlsConnection
open_connection = record {
  tcp = record { socket = pos 5; ip = [] };
  tls = 1;
  buffer = view (at_heap 0 0) 3;
}

abbrev nothing_live : Objects
nothing_live = record { next = 2; live = λ p. none }

abbrev objects : Objects
objects = put (put nothing_live 0 (some (listener (pos 3)))) 1 (some (connection open_connection))

epoll_listen-AllValid_example :
    Post
      (λ objects' w. AllValid objects')
      (epoll_listen net ssl crypto nobody 1 (pos 4) 2 1 objects mem 0)
epoll_listen-AllValid_example =
    epoll_listen-AllValid net ssl crypto nobody 1 (pos 4) 2 1 objects mem 0 (
      put-AllValid (put nothing_live 0 (some (listener (pos 3)))) 1
        (some (connection open_connection))
        (put-AllValid nothing_live 0 (some (listener (pos 3))) (λ p. tt) tt) (omega arith))

tls_ondata-bound_example :
    Ensures
      (λ w. Unit)
      (tls_ondata ssl 2 1 (view (at_heap 0 0) 4) (view (at_heap 0 0) 100))
      (λ r w. r.1.len ≤ 100)
tls_ondata-bound_example =
    tls_ondata-bound ssl 2 1 (view (at_heap 0 0) 4) (view (at_heap 0 0) 100) (omega arith)
