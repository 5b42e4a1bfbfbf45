-- ===== src/Connections/Received.antt =====
-- src/http_server.c: `http_tls_ondata` up to where the plaintext is crunched.
use sleepytext.Bytes.Stored.{Stored, allocated-Stored, written-Stored, written_self-Stored}
use sleepytext.Prelude.{
  ℕ, ◌+◌, ◌-◌, ◌≤◌, ◌<◌, ◌≡◌, refl, sym, ◌∙◌, some, List, ◌++◌, length, length-append, arith,
}
use sleepytext.Prelude.Int.{ℤ}
use sleepytext.Prelude.Words.{add64, add64_exact}
use sleepytext.Memory.{Mem, fill}
use sleepytext.Memory.Overwrite.{overwrite, length-fill}
use sleepytext.Memory.Write.{at_heap, written}
use sleepytext.Bytes.{view}
use sleepytext.Bytes.Fresh.{allocated, allocated_own, balloc-allocated}
use sleepytext.Connections.{HttpTlsConnection, http_tls_ondata, crunch, flush_tls}
use sleepytext.Connections.Text.{HasText, allocated-HasText, room_of-HasText, tcp_ondata-Views}
use sleepytext.Http.Accept.{Crypto}
use sleepytext.HttpServer.{HttpServer}
use sleepytext.System.{◌>>=◌, ◌>>◌, return}
use sleepytext.System.Sockets.{Sockets}
use sleepytext.System.Tls.{Tls}
use sleepytext.TlsLayer.Plain.{Filled, Reads, tls_ondata-Filled}

module _ {W : Type 0} (net : Sockets W) (ssl : Tls W) (fuel : ℕ) where
  -- An event brings some bytes, for which OpenSSL gives `text`; `k` bytes of the buffer are in use.
  pub record Arrives (socket : ℤ) (tls k : ℕ) (w : W) (text : List ℕ) (w' : W) : Type 0 where
    pub sealed : List ℕ
    pub received : (net.recv socket 4096 w).0 ≡ some sealed
    pub some_bytes : 0 < length sealed
    pub short : length sealed ≤ 4096
    pub reads :
        Reads ssl tls fuel
          (4096 - k)
          (ssl.rbio_write tls sealed (net.recv socket 4096 w).1).1
          text
          w'

  module _ (con : HttpTlsConnection) (crypto : Crypto) (server : HttpServer W) where
    pub http_tls_ondata-crunch :
        {s text : List ℕ} {w' : W} (m : Mem) (w : W)
        → HasText m con.buffer s
        → Arrives con.tcp.socket con.tls (length s) w text w'
        → 12288 ≤ m.room
        → (a : ℕ) × (m' : Mem) × (bytes : List ℕ) × (http_tls_ondata net ssl crypto server fuel con
              m w
            ≡ (crunch net ssl crypto server
                    (length text)
                    (record con { buffer = view (at_heap a 0) (length (s ++ text)) })
                  >>= λ con'. flush_tls net ssl con' >> return (some con'))
                m' w')
          × Stored m' a bytes
          × Filled (s ++ text) bytes
          × (m.room ≤ m'.room + 12288)
    unfolding http_tls_ondata written
    http_tls_ondata-crunch {s} {text} {w'} m w h arrives room =
        let m1 = allocated 4096 m in
        let (a, m2, bytes, ran2, st2, f2, room2) =
          room_of-HasText net ssl con m1 w (allocated-HasText 4096 h) (omega arith) in
        let m3 = allocated 4096 m2 in
        let b = m2.next in
        let cs = fill (m2.garbage b) 0 4096 in
        let (ran3, views) =
          tcp_ondata-Views net con.tcp b cs arrives.sealed m3 w (allocated_own 4096 m2)
            (length-fill (m2.garbage b) 0 4096) arrives.received arrives.some_bytes arrives.short in
        let cs' = overwrite cs 0 arrives.sealed in
        let m4 = written m3 b cs' in
        let st4 = written-Stored b cs' (omega (arith, st2.older)) (allocated-Stored 4096 st2) in
        let (bytes', ran5, f5) =
          tls_ondata-Filled ssl con.tls fuel (length s) (view (at_heap b 0) (length arrives.sealed))
            arrives.sealed m4 views arrives.reads st4.holds f2 refl in
        let total : add64 (length s) (length text) ≡ length (s ++ text) =
          add64_exact (length s) (length text) (omega (arith, f5.fits, length-append s text))
          ∙ sym (length-append s text) in
        (
          a,
          written m4 a bytes',
          bytes',
          rw
              (
                balloc-allocated 4096 m (omega arith),
                ran2,
                balloc-allocated 4096 m2 (omega (arith, room2)),
                ran3,
                ran5,
                total,
              )
              refl,
          written_self-Stored bytes' st4,
          f5,
          omega (arith, room2),
        )
