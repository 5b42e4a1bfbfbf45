-- ===== src/HttpServer.antt =====
-- src/http_server.c: the table of callbacks of a server, and the choice of the callback that answers
-- a request. The connections of this file are in Connections.
pub mod Dispatch
pub mod Routes
use sleepytext.Prelude.{
  ℕ, zero, suc, ◌+◌, Bool, true, false, none, some, List, ltb, leb, ◌==◌, get_elem?, set,
  if◌then◌else◌,
}
use sleepytext.Prelude.Int.{is_zero}
use sleepytext.Bytes.{Bytes, bslice, bsame}
use sleepytext.Http.{HttpRequest, HttpRawResponse, http_result, http_not_found}
use sleepytext.System.{Io, ◌>>=◌, return, local, crashed}

abbrev pub Handler : Type 0 → Type 0
Handler W = HttpRequest → Io W HttpRawResponse

pub record HttpCallbackPair (W : Type 0) : Type 0 where
  pub fun : Handler W
  pub addr : Bytes

-- `callback` is the array of 16 pairs. The TLS context is left out.
pub record HttpServer (W : Type 0) : Type 0 where
  pub callback : List (HttpCallbackPair W)
  pub callbacks : ℕ

module _ {W : Type 0} where
  -- Nothing checks that there is a free slot: a write behind the array is a fault.
  unfoldable pub http_server_add_callback : HttpServer W → HttpCallbackPair W → Io W (HttpServer W)
  http_server_add_callback s p = elim (get_elem? s.callback s.callbacks) [
    | none ↦ λ m w. crashed
    | some old ↦
        return (record { callback = set s.callback s.callbacks p; callbacks = s.callbacks + 1 })
  ]

  -- `s->callback[i]`
  unfoldable pub slot : HttpServer W → ℕ → Io W (HttpCallbackPair W)
  slot s i = elim (get_elem? s.callback i) [ none ↦ λ m w. crashed | some pair ↦ return pair ]

  -- `n` is the number of rounds left, `s->callbacks - i`.
  unfoldable pub dispatch_loop : ℕ → HttpServer W → HttpRequest → ℕ → Io W HttpRawResponse
  dispatch_loop zero s request i = return (http_result http_not_found)
  dispatch_loop (suc n) s request i = do
    pair ← slot s i
    same ← local (bsame request.addr pair.addr)
    if is_zero same
        then pair.fun request
        else if leb pair.addr.len 1
        then dispatch_loop n s request (i + 1)
        else (do
          let slice = bslice request.addr 0 pair.addr.len
          same' ← local (bsame slice pair.addr)
          if is_zero same' then pair.fun request else dispatch_loop n s request (i + 1))

  unfoldable pub http_server_callback_dispatch : HttpServer W → Handler W
  unfolding dispatch_loop
  http_server_callback_dispatch s request = dispatch_loop s.callbacks s request 0
