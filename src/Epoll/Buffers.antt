-- ===== src/Epoll/Buffers.antt =====
-- src/epoll.c and src/http_server.c: the buffers of all connections, whatever the events are.
use sleepytext.Prelude.{
  ℕ, zero, suc, Option, none, some, Bool, true, false, ◌==◌, List, [], ◌∷◌, take, ◌||◌,
  if◌then◌else◌,
}
use sleepytext.Prelude.Int.{ℤ}
use sleepytext.Memory.{Mem}
use sleepytext.Http.Accept.{Crypto}
use sleepytext.HttpServer.{HttpServer}
use sleepytext.System.{world}
use sleepytext.System.Sockets.{Sockets, EpollEvent}
use sleepytext.System.Tls.{Tls}
use sleepytext.TlsLayer.Bounds.{Always}
use sleepytext.System.Ensures.{
  Ensures, Ensures-bind, Ensures-then, Ensures-world, Ensures-return, Ensures-if, Ensures-given,
  Ensures-option, Ensures-any, Post,
}
use sleepytext.Connections.{http_tls_onclose}
use sleepytext.Connections.Buffers.{
  IsValid, LeftIsValid, http_tls_ondata-IsValid, tls_listener_ondata-IsValid,
}
use sleepytext.Epoll.{
  EpollObject, listener, connection, Objects, put, made, epollin, epollerr, epollhup, epollrdhup,
  has_flag, epoll_add, ondata, onclose, call_object, handle_event, handle_events, epoll_listen,
  max_events,
}

abbrev ObjectIsValid : Option EpollObject → Type 0
ObjectIsValid none = Unit
ObjectIsValid (some (listener fd)) = Unit
ObjectIsValid (some (connection con)) = IsValid con

-- The text in the buffer of each connection that is not freed is no longer than the buffer.
abbrev pub AllValid : Objects → Type 0
AllValid objects = (p : ℕ) → ObjectIsValid (objects.live p)

chosen-IsValid :
    (b : Bool) (x y : Option EpollObject)
    → ObjectIsValid x
    → ObjectIsValid y
    → ObjectIsValid (if b then x else y)
chosen-IsValid true x y h k = h
chosen-IsValid false x y h k = k

pub put-AllValid :
    (objects : Objects) (p : ℕ) (object : Option EpollObject)
    → AllValid objects
    → ObjectIsValid object
    → AllValid (put objects p object)
put-AllValid objects p object all h q = chosen-IsValid (p == q) object (objects.live q) h (all q)

module _ {W : Type 0} (net : Sockets W) (ssl : Tls W) (crypto : Crypto) (server : HttpServer W)
    (ctx : ℕ) (epoll : ℤ) (fuel : ℕ) where
  ondata-AllValid :
      (p : ℕ) (object : EpollObject) (objects : Objects)
      → ObjectIsValid (some object)
      → AllValid objects
      → Ensures Always
          (ondata net ssl crypto server ctx epoll fuel p object objects)
          (λ objects' w. AllValid objects')
  unfolding ondata
  ondata-AllValid p (listener fd) objects h all =
      Ensures-bind (tls_listener_ondata-IsValid net ssl ctx fd) λ con. Ensures-given _ λ valid.
        Ensures-then {Q = Always} (Ensures-any (epoll_add net epoll con.tcp.socket objects.next)) (
          Ensures-return {a = made objects (connection con)}
            (λ w e. put-AllValid objects objects.next (some (connection con)) all valid))
  ondata-AllValid p (connection con) objects h all =
      Ensures-bind (http_tls_ondata-IsValid net ssl crypto server fuel con h) λ left.
        Ensures-given _ λ valid.
          Ensures-option LeftIsValid left valid
            (λ e.
              Ensures-return {a = put objects p none} (λ w u. put-AllValid objects p none all tt))
            (λ con' e.
              Ensures-return {a = put objects p (some (connection con'))}
                (λ w u. put-AllValid objects p (some (connection con')) all e))

  onclose-AllValid :
      (p : ℕ) (object : EpollObject) (objects : Objects)
      → AllValid objects
      → Ensures Always
          (onclose net ssl crypto server ctx epoll fuel p object objects)
          (λ objects' w. AllValid objects')
  unfolding onclose
  onclose-AllValid p (listener fd) objects all =
      Ensures-then {Q = Always} (Ensures-any (world (net.close fd)))
        (Ensures-return {a = put objects p none} (λ w e. put-AllValid objects p none all tt))
  onclose-AllValid p (connection con) objects all =
      Ensures-then {Q = Always} (Ensures-any (http_tls_onclose net ssl con))
        (Ensures-return {a = put objects p none} (λ w e. put-AllValid objects p none all tt))

  call_object-AllValid :
      (events p : ℕ) (object : EpollObject) (objects : Objects)
      → ObjectIsValid (some object)
      → AllValid objects
      → Ensures Always
          (call_object net ssl crypto server ctx epoll fuel events p object objects)
          (λ objects' w. AllValid objects')
  unfolding call_object
  call_object-AllValid events p object objects h all =
      Ensures-if (has_flag events epollerr) (onclose-AllValid p object objects all) (
        Ensures-if (has_flag events epollin) (ondata-AllValid p object objects h all) (
          Ensures-if (has_flag events epollhup || has_flag events epollrdhup)
            (onclose-AllValid p object objects all) (Ensures-return {a = objects} (λ w e. all))))

  handle_event-AllValid :
      (event : EpollEvent) (objects : Objects)
      → AllValid objects
      → Ensures Always
          (handle_event net ssl crypto server ctx epoll fuel event objects)
          (λ objects' w. AllValid objects')
  unfolding handle_event
  handle_event-AllValid event objects all =
      Ensures-option ObjectIsValid (objects.live event.pointer) (all event.pointer)
        (λ e. record { run = λ m w u. tt })
        (λ object e. call_object-AllValid event.events event.pointer object objects e all)

  handle_events-AllValid :
      (events : List EpollEvent) (objects : Objects)
      → AllValid objects
      → Ensures Always
          (handle_events net ssl crypto server ctx epoll fuel events objects)
          (λ objects' w. AllValid objects')
  unfolding handle_events
  handle_events-AllValid [] objects all = Ensures-return (λ w e. all)
  handle_events-AllValid (e ∷ es) objects all =
      Ensures-bind (handle_event-AllValid e objects all)
        λ objects'. Ensures-given _ λ all'. handle_events-AllValid es objects' all'

  listen-AllValid :
      (n : ℕ) (objects : Objects)
      → AllValid objects
      → Ensures Always
          (epoll_listen net ssl crypto server ctx epoll fuel n objects)
          (λ objects' w. AllValid objects')
  unfolding epoll_listen
  listen-AllValid zero objects all = Ensures-return (λ w e. all)
  listen-AllValid (suc n) objects all =
      Ensures-bind {Q = λ a. Always} (Ensures-world (λ w e. tt)) λ ready.
        Ensures-then {Q = Always} (Ensures-any (world net.time)) (
          Ensures-bind
            (Ensures-option (λ o. Unit) ready tt (λ u. Ensures-return {a = objects} (λ w e. all))
              (λ events u. handle_events-AllValid (take max_events events) objects all))
            λ objects'. Ensures-given _ λ all'. listen-AllValid n objects' all')

-- However many rounds `epoll_listen` makes, and whatever events, bytes and plaintexts come in, the text
-- in the buffer of each connection stays at most 4096 bytes long, the size of the buffer, if it is so
-- at first.
pub epoll_listen-AllValid :
    {W : Type 0} (net : Sockets W) (ssl : Tls W) (crypto : Crypto) (server : HttpServer W) (ctx : ℕ)
    (epoll : ℤ) (fuel n : ℕ) (objects : Objects) (m : Mem) (w : W)
    → AllValid objects
    → Post
        (λ objects' w'. AllValid objects')
        (epoll_listen net ssl crypto server ctx epoll fuel n objects m w)
epoll_listen-AllValid net ssl crypto server ctx epoll fuel n objects m w all =
    (listen-AllValid net ssl crypto server ctx epoll fuel n objects all).run m w tt
