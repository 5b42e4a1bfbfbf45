-- ===== src/Server/Pages.antt =====
-- src/server.c: the callbacks `root`, `branch` and `void`.
pub mod Read
use sleepytext.Prelude.{ℕ, ◌^◌, [], ◌∷◌}
use sleepytext.Prelude.Text.{codes}
use sleepytext.Bytes.{bslice, balloc}
use sleepytext.Bytes.Number.{btoi}
use sleepytext.Bytes.Print.{text, number, bprintf, c_string}
use sleepytext.Http.{HttpRequest, HttpRawResponse, http_result, http_ok}
use sleepytext.System.Files.{Files}
use sleepytext.Bytes.Streams.{read_view}
use sleepytext.System.{Io, ◌>>=◌, return, local, world}

-- The length of `/api/0/branch/`
abbrev pub branch_prefix : ℕ
branch_prefix = 14

module _ {W : Type 0} (files : Files W) where
  -- The payload is a page of 2^20 bytes with what was read into it.
  unfoldable pub http_callback_root : HttpRequest → Io W HttpRawResponse
  http_callback_root request = do
    f ← world (files.open_read (codes "html/main.html"))
    page ← local (balloc (2 ^ 20))
    page' ← read_view files f page
    return (record (http_result http_ok) { payload = page' })

  unfoldable pub http_callback_branch : HttpRequest → Io W HttpRawResponse
  http_callback_branch request = do
    blobid ← local (btoi (bslice request.addr branch_prefix 0))
    path ← local (balloc 256)
    printed ← local (bprintf path (text (codes "branches/") ∷ number blobid ∷ []))
    name ← local (c_string printed.first.ptr)
    f ← world (files.open_read name)
    page ← local (balloc (2 ^ 20))
    page' ← read_view files f page
    return (record (http_result http_ok) { payload = page' })

unfoldable pub http_callback_void : {W : Type 0} → HttpRequest → Io W HttpRawResponse
http_callback_void request = return (http_result http_ok)
