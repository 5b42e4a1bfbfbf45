-- ===== src/Server/Feed/Ended.antt =====
-- src/server.c: the loop of `http_callback_feed` ends on every payload.
use mathlib.Core.Path.{subst}
use sleepytext.Prelude.{
  ℕ, zero, suc, ◌+◌, ◌*◌, ◌^◌, ◌≤◌, ◌<◌, ◌≢◌, sym, ltb, ◌==◌, ◌⊎◌, inl, inr, arith,
}
use sleepytext.Memory.{Mem}
use sleepytext.Memory.Ends.{Anything, load-Ends}
use sleepytext.Http.{HttpRequest, HttpRawResponse, http_result, http_ok, http_bad_request}
use sleepytext.Server.Feed.{FeedState, next, stop, feed_round, feed_loop, http_callback_feed}
use sleepytext.Server.Feed.Turned.{Turned}
use sleepytext.Prelude.Int.{negsuc}
use sleepytext.System.{unfinished, return}
use sleepytext.System.Ends.{
  Leaves, IoEnds, IoEnds-bind, IoEnds-local, IoEnds-return, IoEnds-if, IoEnds-weaken,
}
use sleepytext.System.Files.{Files}
use sleepytext.Server.Feed.Moves.{
  Shorter, Moves, Shorter-Moves, write_commit-IoEnds, branch_round-IoEnds, insert_round-IoEnds,
  insert_round-again,
}

module _ {W : Type 0} (files : Files W) where
  feed_round-IoEnds :
      (s : FeedState) (m : Mem)
      → 0 < s.p.len
      → s.p.len < 2 ^ 64
      → IoEnds m (feed_round files s) (Moves s.p.len)
  unfolding feed_round
  feed_round-IoEnds s m left small = IoEnds-bind (IoEnds-local (load-Ends s.p.ptr m)) λ c m1 same.
      IoEnds-if (c == b'b')
        (λ e. IoEnds-weaken (branch_round-IoEnds files s m1 left small) (Shorter-Moves s.p.len))
        λ e.
          IoEnds-if (c == b'i') (λ e'. insert_round-IoEnds files s m1 left small)
            (λ e'. IoEnds-return (stop (http_result http_bad_request)) tt)

  feed_round-again :
      (s : FeedState) (m : Mem)
      → 0 < s.p.len
      → s.p.len < 2 ^ 64
      → Turned s.p m
      → IoEnds m (feed_round files s) (Shorter s.p.len)
  unfolding feed_round
  feed_round-again s m left small t = IoEnds-bind (IoEnds-local (load-Ends s.p.ptr m)) λ c m1 same.
      IoEnds-if (c == b'b') (λ e. branch_round-IoEnds files s m1 left small)
        λ e.
          IoEnds-if (c == b'i')
            (λ e'. insert_round-again files s m1 left small (subst (Turned s.p) (sym same) t))
            (λ e'. IoEnds-return (stop (http_result http_bad_request)) tt)

  feed_loop-IoEnds :
      (fuel : ℕ) (s : FeedState) (m : Mem)
      → s.p.len < 2 ^ 64
      → (2 * s.p.len + 2 ≤ fuel) ⊎ (Turned s.p m × (2 * s.p.len + 1 ≤ fuel))
      → IoEnds m (feed_loop files fuel s) Anything
  unfolding feed_loop
  feed_loop-IoEnds zero s m small (inl h) = absurd (omega arith)
  feed_loop-IoEnds zero s m small (inr (t, h)) = absurd (omega arith)
  feed_loop-IoEnds (suc fuel) s m small enough =
      IoEnds-if (ltb 0 s.p.len)
        (λ e.
          let left : 0 < s.p.len = ground arith in
          elim enough [
            | inl h ↦ IoEnds-bind (feed_round-IoEnds s m left small) λ r m1 moved.
                elim r
                    as (λ r'.
                      Moves s.p.len r' m1
                      → IoEnds {W = W} {A = HttpRawResponse} m1
                          (elim r' [
                            | next s' ↦ feed_loop files fuel s'
                            | stop response ↦ return response
                          ])
                          Anything) [
                            | next s' ↦ λ mv. elim mv [
                              | inl less ↦
                                  feed_loop-IoEnds fuel s' m1 (omega arith) (inl (omega arith))
                              | inr (as_long, t) ↦
                                  feed_loop-IoEnds fuel s' m1 (omega arith) (inr (t, omega arith))
                            ]
                            | stop response ↦ λ mv. IoEnds-return response tt
                          ]
                  moved
            | inr (t, h) ↦ IoEnds-bind (feed_round-again s m left small t) λ r m1 moved.
                elim r
                    as (λ r'.
                      Shorter s.p.len r' m1
                      → IoEnds {W = W} {A = HttpRawResponse} m1
                          (elim r' [
                            | next s' ↦ feed_loop files fuel s'
                            | stop response ↦ return response
                          ])
                          Anything) [
                            | next s' ↦ λ less.
                                feed_loop-IoEnds fuel s' m1 (omega arith) (inl (omega arith))
                            | stop response ↦ λ less. IoEnds-return response tt
                          ]
                  moved
          ])
        (λ e.
          IoEnds-bind (write_commit-IoEnds files s m)
            λ u m1 q. IoEnds-return (http_result http_ok) tt)

  -- Whatever the payload, of a size below 2^64, the memory and what the files answer, the loop of
  -- http_callback_feed ends: two rounds for each byte and two more are enough.
  pub http_callback_feed-ends :
      (fuel : ℕ) (request : HttpRequest) (m : Mem) (w : W)
      → request.payload.len < 2 ^ 64
      → 2 * request.payload.len + 2 ≤ fuel
      → http_callback_feed files fuel request m w ≢ unfinished
  unfolding http_callback_feed
  http_callback_feed-ends fuel request m w small enough unended =
      let start : FeedState = record {
        p = request.payload;
        commit = record request.payload { len = 0 };
        file = negsuc 0;
      } in
      subst (Leaves Anything) unended ((feed_loop-IoEnds fuel start m small (inl enough)).after w)
