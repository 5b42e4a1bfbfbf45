-- ===== src/Start.antt =====
-- src/server.c and src/http_server.c: the start of the server and its end.
pub mod Prepared
pub mod Table
pub mod Served
pub mod Stop
use sleepytext.Prelude.{
  ℕ, zero, suc, ◌+◌, ◌==◌, Bool, true, false, Option, none, some, List, [], ◌∷◌, ltb, not, length,
  if◌then◌else◌,
}
use sleepytext.Prelude.Int.{ℤ, pos, negsuc, is_zero, same_int}
use sleepytext.Prelude.Text.{codes}
use sleepytext.Bytes.{Bytes, bs}
use sleepytext.Connections.{is_negative}
use sleepytext.Epoll.{Objects, listener, made, epoll_add, epoll_listen}
use sleepytext.Http.Accept.{Crypto}
use sleepytext.HttpServer.{Handler, HttpCallbackPair, HttpServer, http_server_add_callback}
use sleepytext.Server.Branches.{http_callback_branches, http_callback_newbranch}
use sleepytext.Server.Feed.{http_callback_feed}
use sleepytext.Server.Pages.{http_callback_root, http_callback_branch, http_callback_void}
use sleepytext.Server.Sql.{Sqlite, sqlite_ok}
use sleepytext.Server.Users.{http_callback_login, http_callback_user}
use sleepytext.System.{Io, ◌>>=◌, ◌>>◌, return, local, world, crashed, unfinished}
use sleepytext.System.Directories.{Directories, Database}
use sleepytext.System.Files.{Files}
use sleepytext.System.Sockets.{Sockets}
use sleepytext.System.Tls.{Tls}

-- The texts of the statements, in the order in which `main` prepares them.
abbrev pub statements : List (List ℕ)
statements =
    codes "select password, session from users where login = ?"
    ∷ codes "select session from users where id = ?"
    ∷ codes "select id from users where session = ?"
    ∷ codes "update users set password = ? where session = ?"
    ∷ codes "update users set login = ? where session = ?"
    ∷ codes "update users set lastseen = datetime('now') where session = ?"
    ∷ codes
        "insert into users(login, password, created, lastseen, session) values(?, ?, datetime('now'), datetime('now'), random())"
    ∷ codes "insert into branches(parent, pos, document, user) values(?, ?, ?, ?)"
    ∷ codes "select id, parent, pos, document from branches where user = ?"
    ∷ []

module _ {W : Type 0} (base : Database W) where
  -- The first statement that SQLite refuses ends the start.
  unfoldable pub prepare_all : List (List ℕ) → Io W Bool
  prepare_all [] = return true
  prepare_all (sql ∷ rest) = do
    code ← world (base.prepare sql)
    if not (same_int code sqlite_ok) then return false else prepare_all rest

  -- The statement is finalized before the next one is asked for by it.
  unfoldable pub finalize_loop : ℕ → Option ℕ → Io W (Unit {0})
  finalize_loop zero s = λ m w. unfinished
  finalize_loop (suc fuel) s = do
    base.finalize s
    s' ← base.next_stmt s
    elim s' [ none ↦ return tt | some p ↦ finalize_loop fuel (some p) ]

  unfoldable pub stop : ℕ → Io W (Unit {0})
  unfolding finalize_loop
  stop fuel = do world base.interrupt; finalize_loop fuel none; world base.close_database; return tt

module _ {W : Type 0} (net : Sockets W) where
  -- `SO_REUSEADDR`
  abbrev so_reuseaddr : ℕ
  so_reuseaddr = 2

  -- The listening socket becomes an object of epoll; where the address is taken there is none.
  unfoldable pub setup_socket : ℤ → ℕ → Objects → Io W (ℤ × Objects)
  setup_socket epoll port objects = do
    sock ← world net.socket
    world (net.setsockopt sock so_reuseaddr)
    r ← world (net.bind sock port)
    if not (is_zero r) then return (negsuc 0, objects) else (do
      world (net.listen sock 1024)
      epoll_add net epoll sock objects.next
      return (sock, made objects (listener sock)))

module _ {W : Type 0} (ssl : Tls W) where
  -- `fresh` is what `malloc` gave: nothing sets the number of callbacks.
  unfoldable pub http_init : HttpServer W → Io W (ℕ × HttpServer W)
  http_init fresh = do
    ctx ← world ssl.ctx_new
    world (ssl.use_certificate_file ctx (codes "./cert.pem"))
    world (ssl.use_private_key_file ctx (codes "./cert.pem"))
    world (ssl.set_cipher_list ctx (codes "DEFAULT"))
    return (ctx, fresh)

-- `while (pairs[i].addr.len > 0)`: the pair with an empty path ends the list.
unfoldable pub add_callbacks :
    {W : Type 0} → List (HttpCallbackPair W) → HttpServer W → Io W (HttpServer W)
add_callbacks [] s = λ m w. crashed
add_callbacks (p ∷ rest) s =
    if ltb 0 p.addr.len
    then (do s' ← http_server_add_callback s p; add_callbacks rest s')
    else return s

module _ {W : Type 0} (files : Files W) (db : Sqlite W) (scan : List ℕ → List ℤ) (stack : ℕ → ℤ)
    (fuel : ℕ) where
  pair : List ℕ → Handler W → HttpCallbackPair W
  pair path fun = record { fun = fun; addr = bs path }

  -- The pairs of `main`
  unfoldable pub pairs : List (HttpCallbackPair W)
  unfolding pair
  pairs =
      pair (codes "/") (http_callback_root files)
      ∷ pair (codes "/api/0/newbranch") (http_callback_newbranch db scan stack)
      ∷ pair (codes "/api/0/branch/") (http_callback_branch files)
      ∷ pair (codes "/api/0/branches") (http_callback_branches db fuel)
      ∷ pair (codes "/api/0/feed") (http_callback_feed files fuel)
      ∷ pair (codes "/api/0/user") (http_callback_user db)
      ∷ pair (codes "/api/0/login") (http_callback_login db)
      ∷ pair [] http_callback_void
      ∷ []

  module _ (base : Database W) (dirs : Directories W) (net : Sockets W) (ssl : Tls W)
      (crypto : Crypto) (fresh : HttpServer W) (objects : Objects) where
    -- `main`, with `rounds` rounds of its event loop. Where the directory cannot be opened, `readdir` is
    -- given NULL.
    unfoldable pub main : ℕ → Io W (Unit {0})
    unfolding prepare_all stop setup_socket http_init add_callbacks pairs
    main rounds = do
      epoll ← world net.epoll_create
      world (base.open_database (codes "./db"))
      d ← world (dirs.entries (codes "./branches/"))
      elim d [
        | none ↦ λ m w. crashed
        | some entries ↦ (do
          ready ← prepare_all base statements
          if not ready then stop base fuel else (do
            (ctx, server) ← http_init ssl fresh
            http ← add_callbacks pairs server
            (sock, objects') ← setup_socket net epoll 8080 objects
            epoll_listen net ssl crypto http ctx epoll fuel rounds objects'
            stop base fuel))
      ]
