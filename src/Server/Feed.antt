-- ===== src/Server/Feed.antt =====
-- src/server.c: `http_callback_feed` appends a client's changes to the files of its branches. The
-- payload is a run of records: `b` with a branch number selects a file, `i` with a position, two
-- lengths and two texts is a change, which is written as it came but for the two lengths, which
-- the handler turns into the byte order of the machine in place.
pub mod Applied
pub mod Ended
pub mod Items
pub mod Moves
pub mod Rounds
pub mod Turned
use sleepytext.Prelude.{
  ℕ, zero, suc, ◌+◌, ◌%◌, Bool, true, false, List, [], ◌∷◌, ltb, ◌==◌, if◌then◌else◌, not,
}
use sleepytext.Prelude.Int.{ℤ, pos, negsuc}
use sleepytext.Prelude.Words.{u32_mod, add64}
use sleepytext.Memory.{◌+p◌, load}
use sleepytext.Bytes.{Bytes, view, bslice, bfree}
use sleepytext.Bytes.Print.{c_string, read_bytes}
use sleepytext.Http.{HttpRequest, HttpRawResponse, http_result, http_ok, http_bad_request}
use sleepytext.System.Files.{Files, is_minus_one}
use sleepytext.Server.Wire.{load_net32, ntohl_in_place, branch_path}
use sleepytext.System.{Io, ◌>>=◌, ◌>>◌, return, local, world, unfinished}

-- Where `struct insert` has its members, three numbers of four bytes each.
abbrev pub lastlen_offset : ℕ
lastlen_offset = 4

abbrev pub newlen_offset : ℕ
newlen_offset = 8

-- The local variables of the loop.
pub record FeedState : Type 0 where
  pub p : Bytes
  pub commit : Bytes
  pub file : ℤ

-- A round of the loop goes on, or returns from the function.
pub data Round : Type 0 where
  next : FeedState → Round
  stop : HttpRawResponse → Round

module _ {W : Type 0} (files : Files W) where
  -- `write(file, commit.as_void, commit.len)`
  unfoldable pub write_commit : FeedState → Io W (Unit {0})
  write_commit s = do
    bytes ← local (read_bytes s.commit.len s.commit.ptr)
    world (files.write_file s.file bytes)

  -- The record `b`
  unfoldable pub branch_round : FeedState → Io W Round
  branch_round s = do
    if not (is_minus_one s.file) then write_commit s else return tt
    let bid = bslice s.p 1 5
    if not (bid.len == 4) then return (stop (http_result http_bad_request)) else (do
      id ← local (load_net32 bid.ptr)
      path ← local (branch_path id)
      name ← local (c_string path.ptr)
      file ← world (files.open_append name)
      local (bfree path)
      if is_minus_one file
          then return (stop (http_result http_bad_request))
          else (let p = bslice s.p 5 0 in
              return (next (record { p = p; commit = view p.ptr 0; file = file }))))

  -- The record `i`. The length is computed in `uint32_t`.
  unfoldable pub insert_round : FeedState → Io W Round
  insert_round s =
      if is_minus_one s.file
      then return (stop (http_result http_bad_request))
      else if ltb s.p.len 13
      then return (stop (http_result http_bad_request))
      else (do
        lastlen ← local (ntohl_in_place (s.p.ptr +p (1 + lastlen_offset)))
        newlen ← local (ntohl_in_place (s.p.ptr +p (1 + newlen_offset)))
        let len = (13 + lastlen + newlen) % u32_mod
        if ltb s.p.len len
            then return (stop (http_result http_bad_request))
            else return (
                next (record s {
                  p = bslice s.p len 0;
                  commit = record s.commit { len = add64 s.commit.len len };
                })))

  pub feed_round : FeedState → Io W Round
  feed_round s = do
    c ← local (load s.p.ptr)
    if c == b'b'
        then branch_round s
        else if c == b'i'
        then insert_round s
        else return (stop (http_result http_bad_request))

  pub feed_loop : ℕ → FeedState → Io W HttpRawResponse
  feed_loop zero s = λ m w. unfinished
  feed_loop (suc fuel) s =
      if ltb 0 s.p.len
      then (do
        r ← feed_round s
        elim r [ next s' ↦ feed_loop fuel s' | stop response ↦ return response ])
      else (do write_commit s; return (http_result http_ok))

  unfoldable pub http_callback_feed : ℕ → HttpRequest → Io W HttpRawResponse
  unfolding feed_loop feed_round branch_round insert_round write_commit
  http_callback_feed fuel request =
      feed_loop fuel (record {
        p = request.payload;
        commit = record request.payload { len = 0 };
        file = negsuc 0;
      })
