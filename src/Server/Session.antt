-- ===== src/Server/Session.antt =====
-- src/server.c: `getuserid` asks the database for the user of a session.
pub mod Roundtrip
use sleepytext.Prelude.{not, if◌then◌else◌}
use sleepytext.Prelude.Int.{ℤ, pos}
use sleepytext.Bytes.{Bytes}
use sleepytext.Server.Cookie.{cookie_session}
use sleepytext.Server.Sql.{Sqlite, selectuserid, sqlite_row}
use sleepytext.Prelude.Int.{same_int}
use sleepytext.System.{Io, ◌>>=◌, ◌>>◌, return, local, world}

module _ {W : Type 0} (db : Sqlite W) where
  -- What is asked once the session is known.
  unfoldable pub user_of_session : ℤ → Io W ℤ
  user_of_session session = do
    world (db.reset selectuserid)
    world (db.bind_int64 selectuserid 1 session)
    code ← world (db.step selectuserid)
    if not (same_int code sqlite_row) then return (pos 0) else world (db.column_int selectuserid 0)

  unfoldable pub getuserid : Bytes → Io W ℤ
  unfolding user_of_session
  getuserid header = do session ← local (cookie_session header); user_of_session session
