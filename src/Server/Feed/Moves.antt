-- ===== src/Server/Feed/Moves.antt =====
-- src/server.c: a round of the loop of `http_callback_feed` on any payload. It stops, or leaves less of the
-- payload, or is a change whose length wraps to 0, which leaves the payload as long as it was, with its
-- two lengths turned round.
use mathlib.Core.Path.{subst}
use sleepytext.Prelude.{
  ℕ, ◌+◌, ◌%◌, ◌^◌, ◌<◌, ◌≡◌, ◌≢◌, sym, ap, ◌∙◌, ltb, ◌==◌, not, ◌⊎◌, inl, inr, Bool-cases, arith,
}
use sleepytext.Prelude.Words.{u32_mod, sub64, add64}
use sleepytext.Memory.{Mem, ◌+p◌}
use sleepytext.Memory.Ends.{Ends, Ends-bind, Ends-pure, Anything, Holds-Same}
use sleepytext.Memory.Holds.{+p_zero}
use sleepytext.Bytes.{Bytes, view, bslice}
use sleepytext.Bytes.Ends.{read_bytes-Ends, c_string-Ends, balloc-Ends, bfree-Ends, bprintf-Ends}
use sleepytext.Http.{http_result, http_bad_request}
use sleepytext.Server.Feed.{FeedState, Round, next, stop, write_commit, branch_round, insert_round}
use sleepytext.Server.Feed.Turned.{
  not_both, Turned, both-Turned, ntohl_in_place-Ends, ntohl_in_place-turned, load_net32-Ends,
}
use sleepytext.Bytes.Print.{text, number}
use sleepytext.Prelude.{[], ◌∷◌}
use sleepytext.Prelude.Text.{codes}
use sleepytext.Prelude.Int.{pos}
use sleepytext.Prelude.Words.{to_int}
use sleepytext.Server.Wire.{le32, branch_path}
use sleepytext.System.Ends.{
  IoEnds, IoEnds-bind, IoEnds-local, IoEnds-world, IoEnds-return, IoEnds-if,
}
use sleepytext.System.Files.{Files, is_minus_one}

-- A round stops, or leaves less of the payload.
abbrev pub Shorter : ℕ → Round → Mem → Type 0
Shorter n (next s) m = s.p.len < n
Shorter n (stop r) m = Unit

-- Or it turns the lengths round.
abbrev pub Moves : ℕ → Round → Mem → Type 0
Moves n (next s) m = (s.p.len < n) ⊎ ((s.p.len ≡ n) × Turned s.p m)
Moves n (stop r) m = Unit

pub Shorter-Moves : (n : ℕ) (r : Round) (m : Mem) → Shorter n r m → Moves n r m
Shorter-Moves n (next s) m h = inl h
Shorter-Moves n (stop r) m h = tt

bslice-shorter :
    (p : Bytes) (k : ℕ) → 0 < k → 0 < p.len → p.len < 2 ^ 64 → (bslice p k 0).len < p.len
unfolding bslice sub64 add64
bslice-shorter p k some_bytes left small = ground arith

bslice_whole : (p : Bytes) → 0 < p.len → p.len < 2 ^ 64 → bslice p 0 0 ≡ p
unfolding bslice sub64 add64
bslice_whole p left small =
    let len_is : (bslice p 0 0).len ≡ p.len = ground arith in
    let ptr_is : (bslice p 0 0).ptr ≡ p.ptr = ground (arith, +p_zero p.ptr) in
    ap (λ n. view (bslice p 0 0).ptr n) len_is ∙ ap (λ q. view q p.len) ptr_is

module _ {W : Type 0} (files : Files W) where
  pub write_commit-IoEnds : (s : FeedState) (m : Mem) → IoEnds m (write_commit files s) Anything
  unfolding write_commit
  write_commit-IoEnds s m =
      IoEnds-bind (IoEnds-local (read_bytes-Ends s.commit.len s.commit.ptr m))
        λ bytes m' q. IoEnds-world {call = files.write_file s.file bytes} (λ a. tt)

  branch_path-Ends : (id : ℕ) (m : Mem) → Ends m (branch_path id) Anything
  unfolding branch_path
  branch_path-Ends id m = Ends-bind (balloc-Ends 256 m) λ path m1 q.
      Ends-bind (bprintf-Ends path (text (codes "./branches/") ∷ number (to_int (pos id)) ∷ []) m1)
        λ r m2 q'. Ends-pure path tt

  pub branch_round-IoEnds :
      (s : FeedState) (m : Mem)
      → 0 < s.p.len
      → s.p.len < 2 ^ 64
      → IoEnds m (branch_round files s) (Shorter s.p.len)
  unfolding branch_round
  branch_round-IoEnds s m left small =
      IoEnds-bind {Q = Anything}
        (IoEnds-if (not (is_minus_one s.file)) (λ e. write_commit-IoEnds s m)
          (λ e. IoEnds-return tt tt))
        λ u m1 q.
          IoEnds-if (not ((bslice s.p 1 5).len == 4))
            (λ e. IoEnds-return (stop (http_result http_bad_request)) tt)
            λ e. IoEnds-bind (IoEnds-local (load_net32-Ends (bslice s.p 1 5).ptr m1)) λ id m2 q2.
              IoEnds-bind (IoEnds-local (branch_path-Ends id m2)) λ path m3 q3.
                IoEnds-bind (IoEnds-local (c_string-Ends path.ptr m3)) λ name m4 q4.
                  IoEnds-bind {Q = Anything} (IoEnds-world {call = files.open_append name} λ a. tt)
                    λ file m5 q5. IoEnds-bind (IoEnds-local (bfree-Ends path m5)) λ u' m6 q6.
                      IoEnds-if (is_minus_one file)
                        (λ e'. IoEnds-return (stop (http_result http_bad_request)) tt)
                        (λ e'.
                          IoEnds-return
                            (next (record {
                              p = bslice s.p 5 0;
                              commit = view (bslice s.p 5 0).ptr 0;
                              file = file;
                            }))
                            (bslice-shorter s.p 5 (omega arith) left small))

  pub insert_round-IoEnds :
      (s : FeedState) (m : Mem)
      → 0 < s.p.len
      → s.p.len < 2 ^ 64
      → IoEnds m (insert_round files s) (Moves s.p.len)
  unfolding insert_round
  insert_round-IoEnds s m left small =
      IoEnds-if (is_minus_one s.file) (λ e. IoEnds-return (stop (http_result http_bad_request)) tt)
        λ e.
          IoEnds-if (ltb s.p.len 13) (λ e'. IoEnds-return (stop (http_result http_bad_request)) tt)
            λ e'. IoEnds-bind (IoEnds-local (ntohl_in_place-Ends (s.p.ptr +p 5) m)) λ last m1 w.
              IoEnds-bind (IoEnds-local (ntohl_in_place-Ends (s.p.ptr +p 9) m1)) λ now m2 w'.
                let len = (13 + last + now) % u32_mod in
                IoEnds-if (ltb s.p.len len)
                  (λ e''. IoEnds-return (stop (http_result http_bad_request)) tt)
                  λ e''.
                    IoEnds-return
                      (next (record s {
                        p = bslice s.p len 0;
                        commit = record s.commit { len = add64 s.commit.len len };
                      }))
                      (elim (Bool-cases (len == 0)) [
                        | inl zero_len ↦
                            let wraps : len ≡ 0 = ground arith in
                            let whole : bslice s.p len 0 ≡ s.p =
                              ap (λ k. bslice s.p k 0) wraps ∙ bslice_whole s.p left small in
                            inr (
                              ap (λ b. b.len) whole,
                              subst (λ b. Turned b m2) (sym whole)
                                  (both-Turned s.p m last now w w' wraps),
                            )
                        | inr other ↦ inl (bslice-shorter s.p len (ground arith) left small)
                      ])

  -- The second time the length of the change does not wrap to 0.
  pub insert_round-again :
      (s : FeedState) (m : Mem)
      → 0 < s.p.len
      → s.p.len < 2 ^ 64
      → Turned s.p m
      → IoEnds m (insert_round files s) (Shorter s.p.len)
  unfolding insert_round
  insert_round-again s m left small t =
      IoEnds-if (is_minus_one s.file) (λ e. IoEnds-return (stop (http_result http_bad_request)) tt)
        λ e.
          IoEnds-if (ltb s.p.len 13) (λ e'. IoEnds-return (stop (http_result http_bad_request)) tt)
            λ e'.
              IoEnds-bind (IoEnds-local (ntohl_in_place-turned t.last t.holds_last)) λ last m1 w.
                let beside =
                  Holds-Same (s.p.ptr +p 5) 4 (s.p.ptr.off + 9) (le32 t.now) w.1.1 t.holds_now
                    (inr (omega arith)) in
                IoEnds-bind (IoEnds-local (ntohl_in_place-turned t.now beside)) λ now m2 w'.
                  let len = (13 + last + now) % u32_mod in
                  let nonzero : len ≢ 0 = rw (w.0, w'.0) (not_both t.last t.now t.wrapped) in
                  let some_bytes : 0 < len = omega arith in
                  IoEnds-if (ltb s.p.len len)
                    (λ e''. IoEnds-return (stop (http_result http_bad_request)) tt)
                    λ e''.
                      IoEnds-return
                        (next (record s {
                          p = bslice s.p len 0;
                          commit = record s.commit { len = add64 s.commit.len len };
                        }))
                        (bslice-shorter s.p len some_bytes left small)
