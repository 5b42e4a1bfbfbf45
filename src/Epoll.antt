-- ===== src/Epoll.antt =====
-- src/epoll.c, and the objects of src/http_server.c that it calls: listeners and connections. The
-- pointer that comes with an event names the object; a call through a pointer that was freed is a fault.
pub mod Buffers
use sleepytext.Prelude.{
  ℕ, zero, suc, ◌+◌, ◌/◌, ◌%◌, ◌==◌, Bool, true, false, ◌||◌, Option, none, some, List, [], ◌∷◌,
  ltb, take, not, if◌then◌else◌,
}
use sleepytext.Prelude.Int.{ℤ, pos, negsuc, is_zero}
use sleepytext.Connections.{
  HttpTlsConnection, is_negative, http_tls_ondata, http_tls_onclose, tls_listener_ondata,
}
use sleepytext.Http.Accept.{Crypto}
use sleepytext.HttpServer.{HttpServer}
use sleepytext.System.{Io, ◌>>=◌, ◌>>◌, return, local, world, crashed, unfinished}
use sleepytext.System.Sockets.{Sockets, EpollEvent}
use sleepytext.System.Tls.{Tls}

-- `generic_epoll_object` with its two functions: those of a listening socket, or those of a connection.
pub data EpollObject : Type 0 where
  listener : ℤ → EpollObject
  connection : HttpTlsConnection → EpollObject

-- The objects that `malloc` made and that are not freed; `next` is a pointer that was never used.
pub record Objects : Type 0 where
  pub next : ℕ
  pub live : ℕ → Option EpollObject

abbrev pub put : Objects → ℕ → Option EpollObject → Objects
put objects p object = record objects { live = λ q. if p == q then object else objects.live q }

abbrev pub made : Objects → EpollObject → Objects
made objects object = record (put objects objects.next (some object)) { next = objects.next + 1 }

abbrev pub epollin : ℕ
epollin = 1

abbrev pub epollerr : ℕ
epollerr = 8

abbrev pub epollhup : ℕ
epollhup = 16

abbrev pub epollrdhup : ℕ
epollrdhup = 8192

-- `events & flag`, of a flag that is a power of two
unfoldable pub has_flag : ℕ → ℕ → Bool
has_flag events flag = events / flag % 2 == 1

abbrev pub max_events : ℕ
max_events = 1024

module _ {W : Type 0} (net : Sockets W) (epoll : ℤ) where
  -- `epoll_add`: the failure is reported to the log and to the caller, who does not look at it.
  unfoldable pub epoll_add : ℤ → ℕ → Io W ℤ
  epoll_add fd p = do
    r ← world (net.epoll_add_event epoll fd p)
    if is_negative r then return (negsuc 0) else return (pos 0)

module _ {W : Type 0} (net : Sockets W) (ssl : Tls W) (crypto : Crypto) (server : HttpServer W)
    (ctx : ℕ) (epoll : ℤ) (fuel : ℕ) where
  unfoldable pub ondata : ℕ → EpollObject → Objects → Io W Objects
  unfolding epoll_add
  ondata p (listener fd) objects = do
    con ← tls_listener_ondata net ssl ctx fd
    epoll_add net epoll con.tcp.socket objects.next
    return (made objects (connection con))
  ondata p (connection con) objects = do
    left ← http_tls_ondata net ssl crypto server fuel con
    elim left [
      | none ↦ return (put objects p none)
      | some con' ↦ return (put objects p (some (connection con')))
    ]

  -- `tls_listener_onclose` and `http_tls_onclose`
  unfoldable pub onclose : ℕ → EpollObject → Objects → Io W Objects
  onclose p (listener fd) objects = do world (net.close fd); return (put objects p none)
  onclose p (connection con) objects = do http_tls_onclose net ssl con; return (put objects p none)

  unfoldable pub call_object : ℕ → ℕ → EpollObject → Objects → Io W Objects
  unfolding has_flag ondata onclose
  call_object events p object objects =
      if has_flag events epollerr
      then onclose p object objects
      else if has_flag events epollin
      then ondata p object objects
      else if has_flag events epollhup || has_flag events epollrdhup
      then onclose p object objects
      else return objects

  unfoldable pub handle_event : EpollEvent → Objects → Io W Objects
  unfolding call_object
  handle_event event objects = elim (objects.live event.pointer) [
    | none ↦ λ m w. crashed
    | some object ↦ call_object event.events event.pointer object objects
  ]

  unfoldable pub handle_events : List EpollEvent → Objects → Io W Objects
  handle_events [] objects = return objects
  handle_events (e ∷ es) objects = do objects' ← handle_event e objects; handle_events es objects'

  -- `n` rounds of `epoll_listen`. `epoll_stop` is never set, so the loop has no end.
  unfoldable pub epoll_listen : ℕ → Objects → Io W Objects
  unfolding handle_events
  epoll_listen zero objects = return objects
  epoll_listen (suc n) objects = do
    ready ← world (net.epoll_wait epoll max_events)
    world net.time
    objects' ← elim ready [
      | none ↦ return objects
      | some events ↦ handle_events (take max_events events) objects
    ]
    epoll_listen n objects'
