-- ===== src/Server/Users/Signed.antt =====
-- src/server.c: the cookie that `login` answers with, printed into memory of its own.
use sleepytext.Prelude.{
  ℕ, ◌≤◌, ◌<◌, ◌≡◌, refl, ◌++◌, [], ◌∷◌, List, length, length-append, set, arith,
}
use sleepytext.Prelude.Int.{ℤ}
use sleepytext.Prelude.Text.{codes}
use sleepytext.Memory.{Mem, ok, fill}
use sleepytext.Memory.Overwrite.{overwrite, length-fill}
use sleepytext.Memory.Write.{at_heap, written}
use sleepytext.Bytes.{view, bs}
use sleepytext.Bytes.Fresh.{allocated, allocated_own, balloc-allocated}
use sleepytext.Bytes.Print.{show_int, print_pieces}
use sleepytext.Bytes.Print.Shown.{show_int-le}
use sleepytext.Bytes.Print.Written.{bprintf-overwrite}
use sleepytext.Http.{HttpRawResponse, http_result, http_ok}
use sleepytext.Server.Sql.{Sqlite, updatelastseen}
use sleepytext.Server.Users.{cookie_text, logged_in}
use sleepytext.System.{done}

abbrev attributes : List ℕ
attributes = codes "; path=/; secure\r\n\r\n"

-- The value of the header `Set-Cookie`.
unfoldable pub set_cookie : ℤ → List ℕ
set_cookie session = codes "session=" ++ (show_int session ++ attributes)

set_cookie-le : (session : ℤ) → length (set_cookie session) < 128
unfolding set_cookie
set_cookie-le session = omega (
  arith,
  length-append (codes "session=") (show_int session ++ attributes),
  length-append (show_int session) attributes,
  show_int-le session,
)

set_cookie_printed :
    (session : ℤ) (m : Mem) → print_pieces (cookie_text session) m ≡ ok (set_cookie session) m
unfolding print_pieces set_cookie
set_cookie_printed session m = refl

-- The memory with the cookie and a NUL behind it in a new object.
abbrev pub signed : ℤ → Mem → Mem
signed session m =
    written (allocated 128 m) m.next
      (overwrite (fill (m.garbage m.next) 0 128) 0 (set_cookie session ++ 0 ∷ []))

-- The answer has one header, the cookie.
abbrev pub welcome : ℤ → Mem → HttpRawResponse
welcome session m =
    let cookie = view (at_heap m.next 0) (length (set_cookie session)) in
    let result = http_result http_ok in
    record result {
      headers = 1;
      header_name = set result.header_name 0 (bs (codes "Set-Cookie"));
      header_val = set result.header_val 0 cookie;
    }

module _ {W : Type 0} (db : Sqlite W) where
  -- The session was seen now.
  abbrev pub seen : ℤ → W → W
  seen session w =
      (db.step updatelastseen
        (db.bind_int64 updatelastseen 1 session (db.reset updatelastseen w).1).1).1

  pub logged_in-welcome :
      (session : ℤ) (m : Mem) (w : W)
      → 128 ≤ m.room
      → logged_in db session m w ≡ done (welcome session m) (signed session m) (seen session w)
  unfolding logged_in
  logged_in-welcome session m w room =
      rw
        (
          balloc-allocated 128 m room,
          bprintf-overwrite m.next 0 128 (fill (m.garbage m.next) 0 128) (set_cookie session)
              (cookie_text session) (set_cookie_printed session (allocated 128 m))
              (allocated_own 128 m) (set_cookie-le session)
              (omega (arith, length-fill (m.garbage m.next) 0 128)) (omega arith),
        )
        refl
