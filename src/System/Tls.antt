-- ===== src/System/Tls.antt =====
-- The calls of OpenSSL. A connection is `SSL *`, a number here; so is a context `SSL_CTX *`.
use sleepytext.Prelude.{ℕ, Option, List}
use sleepytext.Prelude.Int.{ℤ}

pub record Tls (W : Type 0) : Type 0 where
  pub ssl_new : ℕ → W → ℕ × W
  -- `BIO_new(BIO_s_mem())`
  pub bio_new : W → ℕ × W
  pub ssl_set_bio : ℕ → ℕ → ℕ → W → Unit {0} × W
  pub ssl_set_accept_state : ℕ → W → Unit {0} × W
  pub ssl_free : ℕ → W → Unit {0} × W
  -- `BIO_write(SSL_get_rbio(tls), bytes)`
  pub rbio_write : ℕ → List ℕ → W → ℤ × W
  -- `BIO_read(SSL_get_wbio(tls), buffer, count)`: nothing where there is nothing to read
  pub wbio_read : ℕ → ℕ → W → Option (List ℕ) × W
  -- `SSL_read(tls, buffer, count)`: nothing where the result is negative
  pub ssl_read : ℕ → ℤ → W → Option (List ℕ) × W
  -- `SSL_get_error(tls, result)` after the last call
  pub ssl_get_error : ℕ → Option (List ℕ) → W → ℕ
  pub ssl_write : ℕ → List ℕ → W → ℤ × W
  -- `SSL_CTX_new(TLSv1_server_method())` behind the initialisation of the library
  pub ctx_new : W → ℕ × W
  -- `SSL_CTX_use_certificate_file`, `SSL_CTX_use_PrivateKey_file` and `SSL_CTX_set_cipher_list`
  pub use_certificate_file : ℕ → List ℕ → W → ℤ × W
  pub use_private_key_file : ℕ → List ℕ → W → ℤ × W
  pub set_cipher_list : ℕ → List ℕ → W → ℤ × W

-- `SSL_ERROR_SSL`, `SSL_ERROR_WANT_READ`, `SSL_ERROR_SYSCALL` and `SSL_ERROR_ZERO_RETURN`
abbrev pub ssl_error_ssl : ℕ
ssl_error_ssl = 1

abbrev pub ssl_error_want_read : ℕ
ssl_error_want_read = 2

abbrev pub ssl_error_syscall : ℕ
ssl_error_syscall = 5

abbrev pub ssl_error_zero_return : ℕ
ssl_error_zero_return = 6
