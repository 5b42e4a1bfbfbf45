-- ===== src/TlsLayer/Bounds.antt =====
-- src/tls.c and src/tcp.c: what is received stays within the buffers.
use sleepytext.Prelude.{
  ℕ, zero, suc, ◌+◌, ◌-◌, ◌^◌, ◌≤◌, ◌<◌, ◌≡◌, sym, ap, ◌∙◌, length-take, Option, none, some, List,
  length, arith, ◌==◌, ◌||◌,
}
use mathlib.Core.Path.{subst}
use sleepytext.Bytes.Print.{write_bytes, read_bytes}
use sleepytext.Memory.{◌+p◌}
use sleepytext.Prelude.Words.{add64_exact}
use sleepytext.System.Tls.{
  ssl_error_ssl, ssl_error_want_read, ssl_error_syscall, ssl_error_zero_return,
}
use sleepytext.Prelude.Int.{ℤ, pos, negsuc}
use sleepytext.Prelude.Words.{to_int, add64, to_int_small, int_max}
use sleepytext.Memory.{Ptr}
use sleepytext.Bytes.{Bytes, view}
use sleepytext.System.Tls.{Tls}
use sleepytext.System.Ensures.{
  Ensures, Ensures-bind, Ensures-then, Ensures-local, Ensures-look, Ensures-world, Ensures-return,
  Ensures-if, Ensures-weaken,
}
use sleepytext.TlsLayer.{read_loop, taken, less, tls_ondata}

module _ {W : Type 0} where
  abbrev pub Always : W → Type 0
  Always w = Unit

pub taken-length : (n : ℕ) (answer : Option (List ℕ)) → length (taken (pos n) answer) ≤ n
taken-length n none = omega arith
taken-length n (some text) = omega (arith, length-take n text)

pub less-pos : (n k : ℕ) → k ≤ n → less (pos n) k ≡ pos (n - k)
less-pos n k h = ground arith

module _ {W : Type 0} (ssl : Tls W) where
  pub read_loop-bound :
      (fuel tls : ℕ) (place : Ptr) (last : ℤ) (room len : ℕ)
      → last ≡ pos room
      → len + room < 2 ^ 64
      → Ensures Always (read_loop ssl fuel tls place last len) (λ r w. r.1 ≤ len + room)
  unfolding read_loop
  read_loop-bound zero tls place last room len e h = record { run = λ m w p. tt }
  read_loop-bound (suc fuel) tls place last room len e h =
      Ensures-bind {Q = λ a. Always} (Ensures-world (λ w p. tt)) λ answer.
        let text = taken last answer in
        let n = length text in
        let short : n ≤ room =
          subst (λ l. length (taken l answer) ≤ room) (sym e) (taken-length room answer) in
        let total : add64 len n ≡ len + n = add64_exact len n (omega arith) in
        Ensures-then (Ensures-local (write_bytes place text)) (
          Ensures-bind (Ensures-look (ssl.ssl_get_error tls answer)) λ code.
            Ensures-if
              (code == ssl_error_zero_return
                || (code == ssl_error_ssl || code == ssl_error_syscall))
              (Ensures-return {a = (negsuc 0, len)} (λ w p. omega arith))
              (Ensures-if (code == ssl_error_want_read)
                (Ensures-return {a = (pos 0, add64 len n)} (λ w p. omega (arith, short, total)))
                (Ensures-weaken
                  (read_loop-bound fuel tls (place +p n) (less last n) (room - n) (add64 len n)
                    (ap (λ l. less l n) e ∙ less-pos room n short) (omega (arith, short, total)))
                  (λ w p. tt) (λ r w q. omega (arith, q, short, total)))))

  -- Into a view of less than 2^31 bytes `tls_ondata` decrypts no more bytes than the view has, whatever
  -- OpenSSL answers and however often it is asked: the view that it returns is no longer than the given.
  pub tls_ondata-bound :
      (fuel tls : ℕ) (encrypted plaintext : Bytes)
      → plaintext.len ≤ int_max
      → Ensures Always
          (tls_ondata ssl fuel tls encrypted plaintext)
          (λ r w. r.1.len ≤ plaintext.len)
  unfolding tls_ondata
  tls_ondata-bound fuel tls encrypted plaintext h =
      Ensures-bind (Ensures-local (read_bytes encrypted.len encrypted.ptr)) λ bytes.
        Ensures-then {Q = Always} (Ensures-world {call = ssl.rbio_write tls bytes} (λ w p. tt)) (
          Ensures-bind
            (read_loop-bound fuel tls plaintext.ptr (to_int (pos plaintext.len)) plaintext.len 0
              (to_int_small plaintext.len h) (omega arith))
            λ r. Ensures-return {a = (r.0, view plaintext.ptr r.1)} (λ w q. omega (arith, q)))
