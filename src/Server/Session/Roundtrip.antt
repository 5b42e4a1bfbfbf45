-- ===== src/Server/Session/Roundtrip.antt =====
-- src/server.c: the session in a cookie is read back.
use mathlib.Core.List.{append-nil}
use sleepytext.Prelude.{
  ℕ, zero, suc, ◌+◌, ◌*◌, ◌/◌, ◌%◌, ◌≤◌, ◌≡◌, refl, sym, ap, ◌∙◌, none, some, Option, List, [], ◌∷◌,
  ◌++◌, length, length-append, true, false, ltb, leb, Bool-cases, inl, inr, arith,
}
use sleepytext.Prelude.Int.{pos}
use sleepytext.Prelude.Text.{codes}
use sleepytext.Prelude.Words.{int_max, int64_max}
use sleepytext.Memory.{Mem, ok}
use sleepytext.Bytes.{Bytes, BFound, bs, bfind, not_found}
use sleepytext.Bytes.Itob.Digits.{HasDigits}
use sleepytext.Bytes.Views.{Views, bs-Views}
use sleepytext.Bytes.Find.{scan}
use sleepytext.Bytes.Find.First.{Lacks, Lacks-append, bfind_first, bfind_lacking}
use sleepytext.Bytes.Number.{not_digit}
use sleepytext.Bytes.Number.Decimal.{decimal, btoi64-decimal}
use sleepytext.Bytes.Print.{show_digits, show_int}
use sleepytext.Http.{crlf}
use sleepytext.Http.Param.{field_line, http_extract_param_inner}
use sleepytext.Server.Cookie.{cookie_session}
use sleepytext.Server.Session.{user_of_session, getuserid}
use sleepytext.Server.Sql.{Sqlite}

decimal-digit :
    (acc n : ℕ) (rest : List ℕ)
    → decimal acc ((b'0' + n % 10) ∷ rest) ≡ decimal (acc * 10 + n % 10) rest
unfolding decimal
decimal-digit acc n rest =
    let digit : not_digit (b'0' + n % 10) ≡ false = ground arith in
    rw digit (ap (λ k. decimal k rest) (omega arith))

-- The digits that are printed stand for the number.
decimal-show_digits :
    (fuel n : ℕ) (rest : List ℕ)
    → HasDigits fuel n
    → decimal 0 (show_digits fuel n rest) ≡ decimal n rest
unfolding show_digits
decimal-show_digits zero n rest d = ap (λ k. decimal k rest) (sym d)
decimal-show_digits (suc fuel) n rest d = elim (Bool-cases (ltb n 10)) [
  | inl last ↦ rw last (decimal-digit 0 n rest ∙ ap (λ k. decimal k rest) (ground arith))
  | inr more ↦ rw more (
      decimal-show_digits fuel (n / 10) ((b'0' + n % 10) ∷ rest) d
      ∙ decimal-digit (n / 10) n rest
      ∙ ap (λ k. decimal k rest) (omega arith))
]

int64_max-HasDigits : (n : ℕ) → n ≤ int64_max → HasDigits 20 n
int64_max-HasDigits n small = omega arith

show_digits-Lacks :
    (c fuel n : ℕ) (acc : List ℕ)
    → not_digit c ≡ true
    → Lacks c acc
    → Lacks c (show_digits fuel n acc)
unfolding show_digits
show_digits-Lacks c zero n acc h l = l
show_digits-Lacks c (suc fuel) n acc h l =
    ground (arith, show_digits-Lacks c fuel (n / 10) ((b'0' + n % 10) ∷ acc))

decimal-show_int : (n : ℕ) → n ≤ int64_max → decimal 0 (show_int (pos n)) ≡ some n
unfolding show_int decimal
decimal-show_int n small = decimal-show_digits 20 n [] (int64_max-HasDigits n small)

show_int-Lacks : (c n : ℕ) → not_digit c ≡ true → Lacks c (show_int (pos n))
unfolding show_int
show_int-Lacks c n h = show_digits-Lacks c 20 n [] h tt

-- What stands behind the session in a cookie.
abbrev pub other_cookies : Option (List ℕ) → List ℕ
other_cookies none = []
other_cookies (some more) = b';' ∷ more

abbrev pub session_name : List ℕ
session_name = codes "session="

-- The value of a cookie with the session `n` behind other cookies.
abbrev pub cookie_value : List ℕ → ℕ → Option (List ℕ) → List ℕ
cookie_value front n more = front ++ (session_name ++ (show_int (pos n) ++ other_cookies more))

module _ {m : Mem} where
  -- What stands before the first `;`, or the whole text.
  up_to_semicolon :
      (b : Bytes) (xs : List ℕ) (more : Option (List ℕ))
      → Views m b (xs ++ other_cookies more)
      → length (xs ++ other_cookies more) ≤ int_max
      → Lacks b';' xs
      → (f : BFound) × (bfind b (bs (codes ";")) m ≡ ok f m) × Views m f.before xs
  up_to_semicolon b xs none v le lacks =
      let whole = rw (append-nil xs) at v in
      (
        not_found b,
        bfind_lacking {what = bs (codes ";")} whole (bs-Views (codes ";"))
            (rw (append-nil xs) at le) lacks,
        whole,
      )
  up_to_semicolon b xs (some more) v le lacks =
      let (f, found, parts) =
        bfind_first {what = bs (codes ";")} xs more v (bs-Views (codes ";")) le lacks in
      (f, found, parts.before)

-- The header of a request with this cookie behind the lines `before` and with `rest` behind it.
abbrev pub with_cookie : List ℕ → List ℕ → ℕ → Option (List ℕ) → List ℕ → List ℕ
with_cookie before front n more rest =
    before
    ++ b'\n' ∷ field_line (codes "Cookie") b':' b' ' (cookie_value front n more) (crlf ++ rest)

module _ (before front : List ℕ) (n : ℕ) (more : Option (List ℕ)) (rest : List ℕ) where
  cookie_value-le :
      length (with_cookie before front n more rest) ≤ int_max
      → length (cookie_value front n more) ≤ int_max
  cookie_value-le le = omega (
    arith,
    length-append before
        (b'\n' ∷ field_line (codes "Cookie") b':' b' ' (cookie_value front n more) (crlf ++ rest)),
    length-append (cookie_value front n more) (crlf ++ rest),
  )

  cookie_value-Lacks :
      Lacks b'\r' front → Lacks b'\r' (other_cookies more) → Lacks b'\r' (cookie_value front n more)
  cookie_value-Lacks l l' = Lacks-append b'\r' front _ l (
      Lacks-append b'\r' session_name _ (ground arith)
        (Lacks-append b'\r' (show_int (pos n)) _ (show_int-Lacks b'\r' n refl) l'))

  cookie_session-with_cookie :
      {m : Mem} {header : Bytes}
      → Views m header (with_cookie before front n more rest)
      → length (with_cookie before front n more rest) ≤ int_max
      → scan (codes "Cookie") (codes "Cookie") before 0 ≡ none
      → Lacks b'\r' front
      → Lacks b'\r' (other_cookies more)
      → Lacks b's' front
      → n ≤ int64_max
      → cookie_session header m ≡ ok (pos n) m
  unfolding cookie_session
  cookie_session-with_cookie {m} v le missing l l' first small =
      let (cookie, found, cv) =
        http_extract_param_inner b'C' (codes "ookie") before (cookie_value front n more) b':' b' '
          rest v (bs-Views (codes "Cookie")) le missing (ground arith) (cookie_value-Lacks l l') in
      let value_le = cookie_value-le le in
      let behind = show_int (pos n) ++ other_cookies more in
      let (f, found', parts) =
        bfind_first {what = bs session_name} front behind cv (bs-Views session_name) value_le
          first in
      let behind_le : length behind ≤ int_max = omega (
        arith,
        value_le,
        length-append front (session_name ++ behind),
        length-append session_name behind,
      ) in
      let (f', found'', digits) =
        up_to_semicolon f.after (show_int (pos n)) more parts.after behind_le
          (show_int-Lacks b';' n refl) in
      rw (found, found', found'')
        (btoi64-decimal digits
            (omega (arith, behind_le, length-append (show_int (pos n)) (other_cookies more)))
            (decimal-show_int n small)
          ∙ (let fits : leb n int64_max ≡ true = ground arith in rw fits refl))

  -- Where the header has a line with a cookie whose `session=` is followed by the decimal digits of n,
  -- as `login` prints them, and then by nothing or by `;` and more, getuserid asks for the user of the
  -- session n. The line before it and those above do not hold `Cookie`, another line follows it, no CR
  -- stands in the cookie, no `s` before `session=`, n fits in int64_t, and the header in int.
  pub getuserid-user_of_session :
      {W : Type 0} (db : Sqlite W) {m : Mem} {header : Bytes} (w : W)
      → Views m header (with_cookie before front n more rest)
      → length (with_cookie before front n more rest) ≤ int_max
      → scan (codes "Cookie") (codes "Cookie") before 0 ≡ none
      → Lacks b'\r' front
      → Lacks b'\r' (other_cookies more)
      → Lacks b's' front
      → n ≤ int64_max
      → getuserid db header m w ≡ user_of_session db (pos n) m w
  unfolding getuserid
  getuserid-user_of_session db w v le missing l l' first small =
      rw (cookie_session-with_cookie v le missing l l' first small) refl
