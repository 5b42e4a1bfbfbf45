-- ===== src/Connections/Text.antt =====
-- src/http_server.c: the text in a connection's buffer.
use sleepytext.Bytes.Stored.{Stored, allocated-Stored, fresh-Stored}
use sleepytext.Prelude.{
  ℕ, ◌+◌, ◌-◌, ◌≤◌, ◌<◌, ◌≡◌, refl, ap, false, some, List, [], ◌==◌, length, take_all, arith,
}
use sleepytext.Prelude.Int.{pos}
use sleepytext.Prelude.Words.{sub64_exact}
use sleepytext.Memory.{Mem, fill}
use sleepytext.Memory.Overwrite.{overwrite, overwrite-StandsAt, StandsAt-Holds, length-fill, nil}
use sleepytext.Memory.Write.{at_heap, written}
use sleepytext.Bytes.{Bytes, view, bvoid}
use sleepytext.Bytes.Fresh.{allocated, balloc-allocated}
use sleepytext.Bytes.Print.Written.{write_bytes-overwrite}
use sleepytext.Bytes.Views.{Views}
use sleepytext.Connections.{HttpTlsConnection, room_of}
use sleepytext.System.{done}
use sleepytext.System.Sockets.{Sockets}
use sleepytext.System.Tls.{Tls}
use sleepytext.Tcp.{TcpConnection, tcp_ondata}
use sleepytext.TlsLayer.Plain.{Filled}

-- The buffer of a connection, and the text in it: NULL, or an object of 4096 bytes.
pub data HasText (m : Mem) : Bytes → List ℕ → Type 0 where
  no_buffer : HasText m bvoid []
  buffered :
      (a : ℕ) {s bytes : List ℕ}
      → Stored m a bytes
      → Filled s bytes
      → HasText m (view (at_heap a 0) (length s)) s

-- The place behind the text in the buffer, an object that is there or a new one.
pub room_of-HasText :
    {W : Type 0} (net : Sockets W) (ssl : Tls W) (con : HttpTlsConnection) {s : List ℕ} (m : Mem)
    (w : W)
    → HasText m con.buffer s
    → 4096 ≤ m.room
    → (a : ℕ) × (m' : Mem) × (bytes : List ℕ) × (room_of net ssl con m w
        ≡ done
            (
              view (at_heap a (length s)) (4096 - length s),
              record con { buffer = view (at_heap a 0) (length s) },
            )
            m'
            w)
      × Stored m' a bytes
      × Filled s bytes
      × (m.room ≤ m'.room + 4096)
unfolding room_of
room_of-HasText net ssl con m w no_buffer room = (
  m.next,
  allocated 4096 m,
  fill (m.garbage m.next) 0 4096,
  rw (balloc-allocated 4096 m room) refl,
  fresh-Stored 4096 m,
  record { size = length-fill (m.garbage m.next) 0 4096; stands = nil; fits = omega arith },
  omega arith,
)
room_of-HasText net ssl con m w (buffered a {s} {bytes} st f) room =
    let k = length s in
    let con' : HttpTlsConnection = record con { buffer = view (at_heap a 0) k } in
    (
      a,
      m,
      bytes,
      rw (sub64_exact 4096 k f.fits (omega arith))
          (ap (λ j. done (view (at_heap a j) (4096 - k), con') m w) (omega arith)),
      st,
      f,
      omega arith,
    )

-- What `recv` gives, some bytes and not more than there is room for, stands in the buffer.
pub tcp_ondata-Views :
    {W : Type 0} (net : Sockets W) (tcp : TcpConnection) (b : ℕ) (cs sealed : List ℕ) (m : Mem)
    (w : W)
    → m.objects b ≡ some cs
    → length cs ≡ 4096
    → (net.recv tcp.socket 4096 w).0 ≡ some sealed
    → 0 < length sealed
    → length sealed ≤ 4096
    → let cs' = overwrite cs 0 sealed in
      (tcp_ondata net tcp (view (at_heap b 0) 4096) m w
        ≡ done
            (pos 0, view (at_heap b 0) (length sealed))
            (written m b cs')
            (net.recv tcp.socket 4096 w).1)
      × Views (written m b cs') (view (at_heap b 0) (length sealed)) sealed
unfolding tcp_ondata
tcp_ondata-Views net tcp b cs sealed m w o size answer some_bytes short =
    let fits : 0 + length sealed ≤ length cs = omega arith in
    let nonempty : (length sealed == 0) ≡ false = ground arith in
    (
      rw (answer, take_all 4096 sealed short)
          (rw (write_bytes-overwrite sealed b 0 cs m o fits, nonempty) refl),
      record { holds = StandsAt-Holds m b (overwrite-StandsAt cs 0 sealed fits); len_is = refl },
    )

pub allocated-HasText :
    {m : Mem} {b : Bytes} {s : List ℕ} (n : ℕ) → HasText m b s → HasText (allocated n m) b s
allocated-HasText n no_buffer = no_buffer
allocated-HasText n (buffered a st f) = buffered a (allocated-Stored n st) f
