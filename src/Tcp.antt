-- ===== src/Tcp.antt =====
-- src/tcp.c: the socket of a connection.
use sleepytext.Prelude.{ℕ, none, some, List, ◌==◌, length, take, if◌then◌else◌}
use sleepytext.Prelude.Int.{ℤ, pos, negsuc}
use sleepytext.Bytes.{Bytes}
use sleepytext.Bytes.Print.{write_bytes}
use sleepytext.System.{Io, ◌>>=◌, ◌>>◌, return, local, world}
use sleepytext.System.Sockets.{Sockets}

-- `last` is not used.
pub record TcpConnection : Type 0 where
  pub socket : ℤ
  pub ip : List ℕ

-- `SO_KEEPALIVE`
abbrev so_keepalive : ℕ
so_keepalive = 9

module _ {W : Type 0} (net : Sockets W) where
  -- The result, with the buffer as it is then. The end of the stream is treated as an error is.
  unfoldable pub tcp_ondata : TcpConnection → Bytes → Io W (ℤ × Bytes)
  tcp_ondata tcp buffer = do
    answer ← world (net.recv tcp.socket buffer.len)
    elim answer [
      | none ↦ return (negsuc 0, buffer)
      | some text ↦ (do
        let text' = take buffer.len text
        local (write_bytes buffer.ptr text')
        if length text' == 0
            then return (negsuc 0, buffer)
            else return (pos 0, record buffer { len = length text' }))
    ]

  unfoldable pub tcp_onclose : TcpConnection → Io W (Unit {0})
  tcp_onclose tcp = do world (net.close tcp.socket); return tt

  unfoldable pub tcp_onsetup : ℤ → Io W TcpConnection
  tcp_onsetup listener = do
    accepted ← world (net.accept listener)
    world (net.setsockopt accepted.0 so_keepalive)
    return (record { socket = accepted.0; ip = accepted.1 })
