-- ===== src/TlsLayer.antt =====
-- src/tls.c: what a connection received is decrypted into a buffer.
pub mod Bounds
pub mod Plain
use sleepytext.Prelude.{
  ℕ, zero, suc, ◌+◌, ◌-◌, Option, none, some, List, [], ◌∷◌, ◌==◌, ◌||◌, length, take,
  if◌then◌else◌,
}
use sleepytext.Prelude.Int.{ℤ, pos, negsuc, sub_ℕ}
use sleepytext.Prelude.Words.{to_int, add64}
use sleepytext.Memory.{Ptr, ◌+p◌}
use sleepytext.Bytes.{Bytes, view}
use sleepytext.Bytes.Print.{read_bytes, write_bytes}
use sleepytext.System.{Io, ◌>>=◌, ◌>>◌, return, local, world, unfinished}
use sleepytext.System.Tls.{
  Tls, ssl_error_ssl, ssl_error_want_read, ssl_error_syscall, ssl_error_zero_return,
}
use sleepytext.System.{look}

-- The bytes that `SSL_read` gave: at most as many as it was asked for, and none for a count that is not
-- positive.
abbrev pub taken : ℤ → Option (List ℕ) → List ℕ
taken last none = []
taken (pos n) (some text) = take n text
taken (negsuc n) (some text) = []

-- `last - len`, where the bytes read are no more than were asked for
abbrev pub less : ℤ → ℕ → ℤ
less (pos n) k = sub_ℕ n k
less (negsuc n) k = negsuc (n + k)

module _ {W : Type 0} (ssl : Tls W) where
  -- `last` is the room that is left behind `pos`, and `len` the length of the plaintext.
  unfoldable pub read_loop : ℕ → ℕ → Ptr → ℤ → ℕ → Io W (ℤ × ℕ)
  read_loop zero tls place last len = λ m w. unfinished
  read_loop (suc fuel) tls place last len = do
    answer ← world (ssl.ssl_read tls last)
    let text = taken last answer
    local (write_bytes place text)
    code ← look (ssl.ssl_get_error tls answer)
    if code == ssl_error_zero_return || (code == ssl_error_ssl || code == ssl_error_syscall)
        then return (negsuc 0, len)
        else if code == ssl_error_want_read
        then return (pos 0, add64 len (length text))
        else read_loop fuel tls (place +p length text) (less last (length text))
            (add64 len (length text))

  -- The result, with the plaintext as it is then.
  unfoldable pub tls_ondata : ℕ → ℕ → Bytes → Bytes → Io W (ℤ × Bytes)
  unfolding read_loop
  tls_ondata fuel tls encrypted plaintext = do
    bytes ← local (read_bytes encrypted.len encrypted.ptr)
    world (ssl.rbio_write tls bytes)
    (result, len) ← read_loop fuel tls plaintext.ptr (to_int (pos plaintext.len)) 0
    return (result, view plaintext.ptr len)

  unfoldable pub tls_onclose : ℕ → Io W (Unit {0})
  tls_onclose tls = world (ssl.ssl_free tls)

  -- The first two buffers are not used again.
  unfoldable pub tls_onsetup : ℕ → Io W ℕ
  tls_onsetup ctx = do
    tls ← world (ssl.ssl_new ctx)
    world ssl.bio_new
    world ssl.bio_new
    rbio ← world ssl.bio_new
    wbio ← world ssl.bio_new
    world (ssl.ssl_set_bio tls rbio wbio)
    world (ssl.ssl_set_accept_state tls)
    return tls
