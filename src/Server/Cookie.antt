-- ===== src/Server/Cookie.antt =====
-- src/server.c: the session that `getuserid` reads from the header of a request.
use sleepytext.Prelude.Int.{ℤ}
use sleepytext.Prelude.Text.{codes}
use sleepytext.Memory.{Action, ◌>>=◌}
use sleepytext.Bytes.{Bytes, bs, bfind}
use sleepytext.Bytes.Number.{btoi64}
use sleepytext.Http.{http_extract_param}

-- The number between `session=` and `;` in the cookie.
unfoldable pub cookie_session : Bytes → Action ℤ
cookie_session header = do
  cookie ← http_extract_param header (bs (codes "Cookie"))
  f ← bfind cookie (bs (codes "session="))
  f' ← bfind f.after (bs (codes ";"))
  btoi64 f'.before
