-- ===== src/Connections/Flushed.antt =====
-- src/http_server.c: `flush_tls`, and what it leaves of the text in a buffer.
use sleepytext.Bytes.Stored.{allocated-Stored, written-Stored}
use sleepytext.Prelude.{
  ℕ, ◌+◌, ◌^◌, ◌≤◌, ◌≡◌, refl, none, some, Option, List, ◌==◌, length, length-take, take,
  if◌then◌else◌, inl, inr, Bool-cases, arith,
}
use sleepytext.Prelude.Int.{ℤ}
use sleepytext.Memory.{Mem, fill}
use sleepytext.Memory.Overwrite.{overwrite, length-fill}
use sleepytext.Memory.Write.{written}
use sleepytext.Bytes.{Bytes}
use sleepytext.Bytes.Fresh.{allocated, allocated_own, balloc-allocated}
use sleepytext.Bytes.Print.Written.{write_bytes-overwrite}
use sleepytext.Connections.{HttpTlsConnection, flush_tls}
use sleepytext.Connections.Text.{HasText, no_buffer, buffered, allocated-HasText}
use sleepytext.System.{done}
use sleepytext.System.Sockets.{Sockets}
use sleepytext.System.Tls.{Tls}

-- A new object does not touch the text.
pub new-HasText :
    {m : Mem} {b : Bytes} {s : List ℕ} (n : ℕ) (cs : List ℕ)
    → HasText m b s
    → HasText (written (allocated n m) m.next cs) b s
new-HasText n cs no_buffer = no_buffer
new-HasText {m} n cs (buffered a st f) =
    buffered a (written-Stored m.next cs (omega (arith, st.older)) (allocated-Stored n st)) f

module _ {W : Type 0} (net : Sockets W) (ssl : Tls W) where
  -- What OpenSSL has for the socket is sent, if it is some bytes.
  abbrev pub sent : ℤ → Option (List ℕ) → W → W
  sent socket none w = w
  sent socket (some text) w =
      if length (take (2 ^ 20) text) == 0 then w else (net.send socket (take (2 ^ 20) text) w).1

  abbrev pub flushed : ℤ → ℕ → W → W
  flushed socket tls w = let (out, w') = ssl.wbio_read tls (2 ^ 20) w in sent socket out w'

  flush_tls-out :
      {b : Bytes} {s : List ℕ} (con : HttpTlsConnection) (out : Option (List ℕ)) (m : Mem) (w : W)
      → HasText m b s
      → 2 ^ 20 ≤ m.room
      → (ssl.wbio_read con.tls (2 ^ 20) w).0 ≡ out
      → (m' : Mem) × (flush_tls net ssl con m w
          ≡ done tt m' (sent con.tcp.socket out (ssl.wbio_read con.tls (2 ^ 20) w).1))
        × HasText m' b s
        × (m.room ≤ m'.room + 2 ^ 20)
  unfolding flush_tls written
  flush_tls-out con none m w h room is = (
    allocated (2 ^ 20) m,
    rw (balloc-allocated (2 ^ 20) m room, is) refl,
    allocated-HasText (2 ^ 20) h,
    omega arith,
  )
  flush_tls-out con (some text) m w h room is =
      let t = take (2 ^ 20) text in
      let cs = fill (m.garbage m.next) 0 (2 ^ 20) in
      let wrote =
        write_bytes-overwrite t m.next 0 cs (allocated (2 ^ 20) m) (allocated_own (2 ^ 20) m)
          (omega (arith, length-take (2 ^ 20) text, length-fill (m.garbage m.next) 0 (2 ^ 20))) in
      (
        written (allocated (2 ^ 20) m) m.next (overwrite cs 0 t),
        elim (Bool-cases (length t == 0)) [
          | inl empty ↦ rw (balloc-allocated (2 ^ 20) m room, is, wrote, empty) refl
          | inr other ↦ rw (balloc-allocated (2 ^ 20) m room, is, wrote, other) refl
        ],
        new-HasText (2 ^ 20) (overwrite cs 0 t) h,
        omega arith,
      )

  -- `flush_tls` leaves the text of the connection.
  pub flush_tls-HasText :
      {b : Bytes} {s : List ℕ} (con : HttpTlsConnection) (m : Mem) (w : W)
      → HasText m b s
      → 2 ^ 20 ≤ m.room
      → (m' : Mem) × (flush_tls net ssl con m w ≡ done tt m' (flushed con.tcp.socket con.tls w))
        × HasText m' b s
        × (m.room ≤ m'.room + 2 ^ 20)
  flush_tls-HasText con m w h room =
      flush_tls-out con (ssl.wbio_read con.tls (2 ^ 20) w).0 m w h room refl
