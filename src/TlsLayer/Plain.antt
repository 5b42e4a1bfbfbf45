-- ===== src/TlsLayer/Plain.antt =====
-- src/tls.c: the plaintext that `tls_ondata` leaves in a buffer of 4096 bytes.
use sleepytext.Prelude.{
  ℕ, zero, suc, ◌+◌, ◌-◌, ◌^◌, ◌≤◌, ◌<◌, ◌≡◌, refl, ap, ◌∙◌, false, some, List, ◌++◌, ◌==◌, ◌||◌,
  length, length-append, arith,
}
use mathlib.Core.List.{append_assoc}
use sleepytext.Prelude.Int.{pos}
use sleepytext.Prelude.Words.{add64_exact, to_int_small}
use sleepytext.Memory.{Mem}
use sleepytext.Memory.Overwrite.{overwrite, StandsAt, length-overwrite, overwrite-StandsAt}
use sleepytext.Memory.Write.{at_heap, written, written_at, written-written}
use sleepytext.Bytes.{Bytes, view}
use sleepytext.Bytes.Views.{Views}
use sleepytext.Bytes.Print.Cstring.{read_bytes-Holds}
use sleepytext.Bytes.Print.Page.{StandsAt-append, StandsAt-overwrite}
use sleepytext.Bytes.Print.Written.{write_bytes-overwrite}
use sleepytext.System.{done}
use sleepytext.System.Tls.{
  Tls, ssl_error_ssl, ssl_error_want_read, ssl_error_syscall, ssl_error_zero_return,
}
use sleepytext.TlsLayer.{taken, read_loop, tls_ondata}
use sleepytext.TlsLayer.Bounds.{taken-length, less-pos}

-- The bytes of a buffer, of which `s` was filled in.
pub record Filled (s bytes : List ℕ) : Type 0 where
  pub size : length bytes ≡ 4096
  pub stands : StandsAt bytes 0 s
  pub fits : length s ≤ 4096

-- A text behind what was filled in
pub overwrite-Filled :
    {s bytes : List ℕ} (k : ℕ) (t : List ℕ)
    → Filled s bytes
    → k ≡ length s
    → k + length t ≤ 4096
    → Filled (s ++ t) (overwrite bytes k t)
overwrite-Filled {s} {bytes} k t f is room = record {
  size = length-overwrite bytes k t ∙ f.size;
  stands =
      StandsAt-append k (StandsAt-overwrite k t f.stands (omega arith)) (omega arith)
        (overwrite-StandsAt bytes k t (omega (arith, f.size)));
  fits = omega (arith, length-append s t);
}

module _ {W : Type 0} (ssl : Tls W) (tls : ℕ) where
  -- What SSL_read gives for a room of `room` bytes, and the error that comes with it
  abbrev given : ℕ → W → List ℕ
  given room w = taken (pos room) (ssl.ssl_read tls (pos room) w).0

  abbrev error_of : ℕ → W → ℕ
  error_of room w =
      let (answer, w') = ssl.ssl_read tls (pos room) w in ssl.ssl_get_error tls answer w'

  -- In at most `fuel` reads OpenSSL gives this text, of at most `room` bytes, and then wants more input.
  pub data Reads : ℕ → ℕ → W → List ℕ → W → Type 0 where
    last_read :
        {fuel : ℕ} (room : ℕ) (w : W)
        → error_of room w ≡ ssl_error_want_read
        → Reads (suc fuel) room w (given room w) (ssl.ssl_read tls (pos room) w).1
    one_more :
        {fuel : ℕ} (room : ℕ) (w : W) {text : List ℕ} {w' : W}
        → (error_of room w == ssl_error_zero_return
            || (error_of room w == ssl_error_ssl || error_of room w == ssl_error_syscall))
          ≡ false
        → (error_of room w == ssl_error_want_read) ≡ false
        → Reads fuel (room - length (given room w)) (ssl.ssl_read tls (pos room) w).1 text w'
        → Reads (suc fuel) room w (given room w ++ text) w'

  pub read_loop-Filled :
      (fuel room : ℕ) {w : W} {text : List ℕ} {w' : W} (k len : ℕ) (m : Mem) {a : ℕ}
      {s bytes : List ℕ}
      → Reads fuel room w text w'
      → m.objects a ≡ some bytes
      → Filled s bytes
      → k ≡ length s
      → k + room ≤ 4096
      → len + room < 2 ^ 64
      → (bytes' : List ℕ) × (read_loop ssl fuel tls (at_heap a k) (pos room) len m w
          ≡ done (pos 0, len + length text) (written m a bytes') w')
        × Filled (s ++ text) bytes'
  unfolding read_loop
  read_loop-Filled zero room k len m r o f is fits small = elim r [ ]
  read_loop-Filled (suc fuel) room k len m {a} {s} {bytes} (last_read _ w e) o f is fits small =
      let t = given room w in
      let short : length t ≤ room = taken-length room (ssl.ssl_read tls (pos room) w).0 in
      let wrote = write_bytes-overwrite t a k bytes m o (omega (arith, f.size)) in
      (
        overwrite bytes k t,
        rw (wrote, e, add64_exact len (length t) (omega arith)) refl,
        overwrite-Filled k t f is (omega arith),
      )
  read_loop-Filled (suc fuel) room k len m {a} {s} {bytes} (one_more _ w {text} {w'} e e' r) o f is
        fits small =
      let t = given room w in
      let w1 = (ssl.ssl_read tls (pos room) w).1 in
      let short : length t ≤ room = taken-length room (ssl.ssl_read tls (pos room) w).0 in
      let bytes1 = overwrite bytes k t in
      let m1 = written m a bytes1 in
      let wrote = write_bytes-overwrite t a k bytes m o (omega (arith, f.size)) in
      let f1 = overwrite-Filled k t f is (omega arith) in
      let (bytes', ran, f') =
        read_loop-Filled fuel (room - length t) (k + length t) (len + length t) m1 r
          (written_at m a bytes1) f1 (omega (arith, is, length-append s t)) (omega arith)
          (omega arith) in
      (
        bytes',
        rw (wrote, e, e', less-pos room (length t) short, add64_exact len (length t) (omega arith))
            (ran
              ∙ ap (λ n. done (pos 0, n) (written m1 a bytes') w')
                  (omega (arith, length-append t text))
              ∙ ap (λ n. done (pos 0, len + length (t ++ text)) n w')
                  (written-written m a bytes1 bytes')),
        rw (append_assoc s t text) at f',
      )

  -- Behind `s` in its buffer, `tls_ondata` of what arrived leaves the plaintext that OpenSSL gives.
  pub tls_ondata-Filled :
      (fuel k : ℕ) {w : W} {text : List ℕ} {w' : W} (encrypted : Bytes) (sealed : List ℕ) (m : Mem)
      {a : ℕ} {s bytes : List ℕ}
      → Views m encrypted sealed
      → Reads fuel (4096 - k) (ssl.rbio_write tls sealed w).1 text w'
      → m.objects a ≡ some bytes
      → Filled s bytes
      → k ≡ length s
      → (bytes' : List ℕ) × (tls_ondata ssl fuel tls encrypted (view (at_heap a k) (4096 - k)) m w
          ≡ done (pos 0, view (at_heap a k) (length text)) (written m a bytes') w')
        × Filled (s ++ text) bytes'
  unfolding tls_ondata
  tls_ondata-Filled fuel k {w} {text} {w'} encrypted sealed m {a} v r o f is =
      let (bytes', ran, f') =
        read_loop-Filled fuel (4096 - k) k 0 m r o f is (omega (arith, f.fits)) (omega arith) in
      (
        bytes',
        rw
            (
              read_bytes-Holds encrypted.len v.holds v.len_is,
              to_int_small (4096 - k) (omega arith),
              ran,
            )
            (ap (λ n. done (pos 0, view (at_heap a k) n) (written m a bytes') w') (omega arith)),
        f',
      )
