-- ===== src/System/Sockets.antt =====
-- The calls of the operating system on sockets and on epoll. A call that fails answers with -1, or with
-- nothing.
use sleepytext.Prelude.{ℕ, Option, List}
use sleepytext.Prelude.Int.{ℤ}

-- An event: its flags, and the pointer that was given to `epoll_ctl` with its descriptor.
pub record EpollEvent : Type 0 where
  pub events : ℕ
  pub pointer : ℕ

pub record Sockets (W : Type 0) : Type 0 where
  -- `socket(AF_INET6, SOCK_STREAM, 0)`
  pub socket : W → ℤ × W
  -- `setsockopt(fd, SOL_SOCKET, option, 1)`
  pub setsockopt : ℤ → ℕ → W → ℤ × W
  -- `bind(fd, any address, port)`
  pub bind : ℤ → ℕ → W → ℤ × W
  pub listen : ℤ → ℕ → W → ℤ × W
  -- `accept(fd)`, with the sixteen bytes of the address
  pub accept : ℤ → W → (ℤ × List ℕ) × W
  pub close : ℤ → W → ℤ × W
  -- `recv(fd, buffer, count, 0)`
  pub recv : ℤ → ℕ → W → Option (List ℕ) × W
  -- `write(fd, bytes)`
  pub send : ℤ → List ℕ → W → ℤ × W
  pub epoll_create : W → ℤ × W
  -- `epoll_ctl(epoll, EPOLL_CTL_ADD, fd, { EPOLLIN | EPOLLRDHUP, pointer })`
  pub epoll_add_event : ℤ → ℤ → ℕ → W → ℤ × W
  -- `epoll_wait(epoll, buffer, count, -1)`
  pub epoll_wait : ℤ → ℕ → W → Option (List EpollEvent) × W
  -- `time(0)`
  pub time : W → ℕ × W
