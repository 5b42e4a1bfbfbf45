-- ===== src/Connections.antt =====
-- src/http_server.c: the connections of the server. What a connection points at is passed along: its
-- buffer is memory, the rest of the structure is a record, and what a call leaves of it is its result,
-- nothing where the structure was freed. `server` is the table of callbacks, which all connections share.
pub mod Answers
pub mod Buffers
pub mod Crunched
pub mod Flushed
pub mod Pieces
pub mod Received
pub mod Replies
pub mod Served
pub mod Text
use sleepytext.Prelude.{
  ℕ, ◌+◌, ◌-◌, ◌^◌, Bool, true, false, ◌==◌, Option, none, some, List, [], ◌∷◌, ltb, length, take,
  not, if◌then◌else◌,
}
use sleepytext.Prelude.Int.{ℤ, pos, negsuc}
use sleepytext.Prelude.Words.{to_int, sub64, add64}
use sleepytext.Memory.{Block, null, static, heap, Ptr, ◌+p◌}
use sleepytext.Bytes.{Bytes, view, balloc, bfree}
use sleepytext.Bytes.Print.{read_bytes, write_bytes}
use sleepytext.Http.{HttpRequest, HttpRawResponse, http_switching_protocols, http_parse_request}
use sleepytext.Http.Accept.{Crypto, http_websocket_accept}
use sleepytext.Http.Response.{http_assemble_response, is_switching}
use sleepytext.HttpServer.{HttpServer, http_server_callback_dispatch}
use sleepytext.System.{Io, ◌>>=◌, ◌>>◌, return, local, world}
use sleepytext.System.Sockets.{Sockets}
use sleepytext.System.Tls.{Tls}
use sleepytext.Tcp.{TcpConnection, tcp_ondata, tcp_onclose, tcp_onsetup}
use sleepytext.TlsLayer.{tls_ondata, tls_onclose, tls_onsetup}

pub record HttpTlsConnection : Type 0 where
  pub tcp : TcpConnection
  pub tls : ℕ
  pub buffer : Bytes

abbrev pub is_null : Block → Bool
is_null null = true
is_null (static s) = false
is_null (heap a) = false

abbrev pub is_negative : ℤ → Bool
is_negative (pos n) = false
is_negative (negsuc n) = true

-- The size of a connection's buffer.
abbrev pub buffer_size : ℕ
buffer_size = 4096

module _ {W : Type 0} (net : Sockets W) (ssl : Tls W) where
  unfoldable pub http_tls_onclose : HttpTlsConnection → Io W (Unit {0})
  http_tls_onclose con = do
    tcp_onclose net con.tcp
    tls_onclose ssl con.tls
    local (bfree con.buffer)
    return tt

  -- The room behind what is in the buffer, with the connection: a new buffer is made where there is none.
  unfoldable pub room_of : HttpTlsConnection → Io W (Bytes × HttpTlsConnection)
  room_of con =
      if not (is_null con.buffer.ptr.block)
      then return (view (con.buffer.ptr +p con.buffer.len) (sub64 buffer_size con.buffer.len), con)
      else (do
        buffer ← local (balloc buffer_size)
        return (buffer, record con { buffer = record buffer { len = 0 } }))

  -- The label `error`
  unfoldable pub close_on_error : HttpTlsConnection → Bytes → Io W (Option HttpTlsConnection)
  unfolding http_tls_onclose
  close_on_error con writeb = do
    empty ← local (bfree con.buffer)
    local (bfree writeb)
    http_tls_onclose (record con { buffer = empty })
    return none

  -- `SSL_write`: a negative length is an error.
  unfoldable pub ssl_write_view : ℕ → Bytes → Io W (Unit {0})
  ssl_write_view tls b = elim (to_int (pos b.len)) [
    | pos n ↦ (do bytes ← local (read_bytes n b.ptr); world (ssl.ssl_write tls bytes); return tt)
    | negsuc n ↦ return tt
  ]

  -- What OpenSSL has for the socket is read into a new buffer of 2^20 bytes and written to the socket.
  unfoldable pub flush_tls : HttpTlsConnection → Io W (Unit {0})
  flush_tls con = do
    bff ← local (balloc (2 ^ 20))
    answer ← world (ssl.wbio_read con.tls bff.len)
    elim answer [
      | none ↦ return tt
      | some text ↦ (do
        let text' = take bff.len text
        local (write_bytes bff.ptr text')
        if length text' == 0
            then return tt
            else (do world (net.send con.tcp.socket text'); return tt))
    ]

  module _ (crypto : Crypto) (server : HttpServer W) where
    unfoldable pub response_to : HttpRequest → Io W HttpRawResponse
    response_to parsed = do
      res ← local (http_websocket_accept crypto parsed)
      if not (is_switching res.status)
          then http_server_callback_dispatch server parsed
          else return res

    -- A request that is complete is answered, and the buffer freed.
    unfoldable pub answer_request : HttpRequest → HttpTlsConnection → Io W HttpTlsConnection
    unfolding response_to ssl_write_view
    answer_request parsed con = do
      res ← response_to parsed
      final ← local (http_assemble_response res)
      ssl_write_view con.tls final.header
      ssl_write_view con.tls final.payload
      local (bfree final.header)
      local (bfree final.payload)
      empty ← local (bfree con.buffer)
      return (record con { buffer = empty })

    -- What is done with `n` bytes that were decrypted.
    unfoldable pub crunch : ℕ → HttpTlsConnection → Io W HttpTlsConnection
    unfolding answer_request
    crunch n con =
        if ltb 0 n
        then (do
          parsed ← local (http_parse_request con.buffer)
          if ltb 0 parsed.addr.len then answer_request parsed con else return con)
        else return con

    unfoldable pub http_tls_ondata : ℕ → HttpTlsConnection → Io W (Option HttpTlsConnection)
    unfolding room_of close_on_error crunch flush_tls
    http_tls_ondata fuel given = do
      writeb ← local (balloc 4096)
      (buffer, con) ← room_of given
      tcpbuffer ← local (balloc 4096)
      (result, received) ← tcp_ondata net con.tcp tcpbuffer
      if is_negative result then close_on_error con writeb else (do
        (result', plain) ← tls_ondata ssl fuel con.tls received buffer
        if is_negative result' then close_on_error con writeb else (do
          con' ←
              crunch plain.len
                (record con { buffer = record con.buffer { len = add64 con.buffer.len plain.len } })
          flush_tls con'
          return (some con')))

  unfoldable pub tls_listener_ondata : ℕ → ℤ → Io W HttpTlsConnection
  tls_listener_ondata ctx fd = do
    tcp ← tcp_onsetup net fd
    tls ← tls_onsetup ssl ctx
    return (record { tcp = tcp; tls = tls; buffer = view (record { block = null; off = 0 }) 0 })
