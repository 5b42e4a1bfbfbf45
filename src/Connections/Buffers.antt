-- ===== src/Connections/Buffers.antt =====
-- src/http_server.c: what is known of the length of a connection's buffer.
use sleepytext.Prelude.{ℕ, ◌+◌, ◌≤◌, ◌≡◌, refl, Option, none, some, arith, ltb, not}
use sleepytext.Prelude.Int.{ℤ}
use sleepytext.Prelude.Words.{sub64, add64, sub64_exact, add64_exact}
use sleepytext.Memory.{Mem, pure, malloc, free, ◌+p◌}
use sleepytext.Bytes.{Bytes, view, bvoid, balloc, bfree}
use sleepytext.Http.{HttpRequest, http_parse_request}
use sleepytext.Http.Accept.{Crypto}
use sleepytext.Http.Response.{http_assemble_response}
use sleepytext.HttpServer.{HttpServer}
use sleepytext.System.{local}
use sleepytext.System.Sockets.{Sockets}
use sleepytext.System.Tls.{Tls}
use sleepytext.Tcp.{tcp_ondata, tcp_onsetup}
use sleepytext.TlsLayer.{tls_onsetup}
use sleepytext.TlsLayer.Bounds.{tls_ondata-bound, Always}
use sleepytext.System.Ensures.{
  Ensures, Ensures-bind, Ensures-then, Ensures-local, Ensures-return, Ensures-if, Ensures-Yields,
  Ensures-given, Ensures-any, Yields, Yields-resume,
}
use sleepytext.Connections.{
  HttpTlsConnection, is_null, is_negative, buffer_size, http_tls_onclose, room_of, close_on_error,
  ssl_write_view, flush_tls, response_to, answer_request, crunch, http_tls_ondata,
  tls_listener_ondata,
}

balloc-len : (n : ℕ) (m : Mem) → Yields (λ b. b.len ≡ n) (balloc n m)
unfolding balloc
balloc-len n m = Yields-resume (λ b. b.len ≡ n) (λ p. pure (view p n)) (malloc n m) (λ p m'. refl)

bfree-len : (b : Bytes) (m : Mem) → Yields (λ b'. b'.len ≡ 0) (bfree b m)
unfolding bfree
bfree-len b m = Yields-resume (λ b'. b'.len ≡ 0) (λ p. pure bvoid) (free b.ptr m) (λ p m'. refl)

-- The text in the buffer is no longer than the buffer.
abbrev pub IsValid : HttpTlsConnection → Type 0
IsValid con = con.buffer.len ≤ buffer_size

abbrev pub LeftIsValid : Option HttpTlsConnection → Type 0
LeftIsValid none = Unit
LeftIsValid (some con) = IsValid con

-- The room behind the text ends where the buffer does.
abbrev Fits : Bytes × HttpTlsConnection → Type 0
Fits r = (r.0.len ≤ buffer_size) × (r.1.buffer.len + r.0.len ≤ buffer_size)

-- The text in the buffer once `plain` is behind it.
longer-IsValid :
    (r : Bytes × HttpTlsConnection) (plain : Bytes)
    → Fits r
    → plain.len ≤ r.0.len
    → IsValid (record r.1 { buffer = record r.1.buffer { len = add64 r.1.buffer.len plain.len } })
longer-IsValid r plain fits h =
    let total = add64_exact r.1.buffer.len plain.len (omega (arith, fits.1)) in
    omega (arith, fits.1, total)

module _ {W : Type 0} where
  room_of-Fits :
      (net : Sockets W) (ssl : Tls W) (con : HttpTlsConnection)
      → IsValid con
      → Ensures Always (room_of net ssl con) (λ r w. Fits r)
  unfolding room_of
  room_of-Fits net ssl con h =
      Ensures-if (not (is_null con.buffer.ptr.block))
        (let room = sub64_exact buffer_size con.buffer.len h (omega arith) in
          Ensures-return
            {a = (view (con.buffer.ptr +p con.buffer.len) (sub64 buffer_size con.buffer.len), con)}
            (λ w p. (omega (arith, room), omega (arith, room))))
        (Ensures-bind (Ensures-Yields (balloc buffer_size) (balloc-len buffer_size)) λ buffer.
          Ensures-return {a = (buffer, record con { buffer = record buffer { len = 0 } })}
            (λ w e. (omega (arith, e), omega (arith, e))))

  close_on_error-IsValid :
      {P : W → Type 0} (net : Sockets W) (ssl : Tls W) (con : HttpTlsConnection) (writeb : Bytes)
      → Ensures P (close_on_error net ssl con writeb) (λ left w. LeftIsValid left)
  unfolding close_on_error
  close_on_error-IsValid net ssl con writeb =
      Ensures-bind (Ensures-local (bfree con.buffer)) λ empty.
        Ensures-then (Ensures-any (local (bfree writeb))) (
          Ensures-then {Q = Always}
            (Ensures-any (http_tls_onclose net ssl (record con { buffer = empty })))
            (Ensures-return {a = none} (λ w p. tt)))

  answer_request-IsValid :
      {P : W → Type 0} (net : Sockets W) (ssl : Tls W) (crypto : Crypto) (server : HttpServer W)
      (parsed : HttpRequest) (con : HttpTlsConnection)
      → Ensures P (answer_request net ssl crypto server parsed con) (λ con' w. IsValid con')
  unfolding answer_request
  answer_request-IsValid net ssl crypto server parsed con =
      Ensures-bind (Ensures-any (response_to net ssl crypto server parsed)) λ res.
        Ensures-bind (Ensures-local (http_assemble_response res)) λ final.
          Ensures-then (Ensures-any (ssl_write_view net ssl con.tls final.header)) (
            Ensures-then (Ensures-any (ssl_write_view net ssl con.tls final.payload)) (
              Ensures-then (Ensures-any (local (bfree final.header))) (
                Ensures-then {Q = Always} (Ensures-any (local (bfree final.payload))) (
                  Ensures-bind (Ensures-Yields (bfree con.buffer) (bfree-len con.buffer)) λ empty.
                    Ensures-return {a = record con { buffer = empty }} (λ w e. omega (arith, e))))))

  crunch-IsValid :
      (net : Sockets W) (ssl : Tls W) (crypto : Crypto) (server : HttpServer W) (n : ℕ)
      (con : HttpTlsConnection)
      → IsValid con
      → Ensures Always (crunch net ssl crypto server n con) (λ con' w. IsValid con')
  unfolding crunch
  crunch-IsValid net ssl crypto server n con h =
      Ensures-if (ltb 0 n)
        (Ensures-bind (Ensures-local (http_parse_request con.buffer)) λ parsed.
          Ensures-if (ltb 0 parsed.addr.len)
            (answer_request-IsValid net ssl crypto server parsed con)
            (Ensures-return {a = con} (λ w p. h)))
        (Ensures-return {a = con} (λ w p. h))

  pub http_tls_ondata-IsValid :
      (net : Sockets W) (ssl : Tls W) (crypto : Crypto) (server : HttpServer W) (fuel : ℕ)
      (con : HttpTlsConnection)
      → IsValid con
      → Ensures Always (http_tls_ondata net ssl crypto server fuel con) (λ left w. LeftIsValid left)
  unfolding http_tls_ondata
  http_tls_ondata-IsValid net ssl crypto server fuel given h =
      Ensures-bind (Ensures-local (balloc 4096)) λ writeb.
        Ensures-bind (room_of-Fits net ssl given h) λ r. Ensures-given _ λ fits.
          Ensures-bind (Ensures-local (balloc 4096)) λ tcpbuffer.
            Ensures-bind (Ensures-any (tcp_ondata net r.1.tcp tcpbuffer)) λ x.
              Ensures-if (is_negative x.0) (close_on_error-IsValid net ssl r.1 writeb) (
                Ensures-bind (tls_ondata-bound ssl fuel r.1.tls x.1 r.0 (omega (arith, fits.0)))
                  λ x'. Ensures-given _ λ short.
                    Ensures-if (is_negative x'.0) (close_on_error-IsValid net ssl r.1 writeb) (
                      Ensures-bind
                        (crunch-IsValid net ssl crypto server x'.1.len _
                          (longer-IsValid r x'.1 fits short))
                        λ con'. Ensures-given _ λ valid.
                          Ensures-then {Q = Always} (Ensures-any (flush_tls net ssl con'))
                            (Ensures-return {a = some con'} (λ w p. valid))))

  pub tls_listener_ondata-IsValid :
      (net : Sockets W) (ssl : Tls W) (ctx : ℕ) (fd : ℤ)
      → Ensures Always (tls_listener_ondata net ssl ctx fd) (λ con w. IsValid con)
  unfolding tls_listener_ondata
  tls_listener_ondata-IsValid net ssl ctx fd =
      Ensures-bind {Q = λ a. Always} (Ensures-any (tcp_onsetup net fd)) λ tcp.
        Ensures-bind {Q = λ a. Always} (Ensures-any (tls_onsetup ssl ctx)) λ tls.
          Ensures-return {a = record { tcp = tcp; tls = tls; buffer = bvoid }} (λ w p. omega arith)
