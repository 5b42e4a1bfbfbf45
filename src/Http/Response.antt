-- ===== src/Http/Response.antt =====
-- src/http.c: `http_assemble_response` prints the header of a response into a new object of 4096
-- bytes. Each text is printed into the room that the one before left.
pub mod Field
pub mod Plain
use sleepytext.Prelude.{
  ℕ, zero, suc, ◌+◌, ◌-◌, ◌^◌, Bool, true, false, Option, none, some, List, [], ◌∷◌, ◌++◌, ltb,
  get_elem?, if◌then◌else◌,
}
use sleepytext.Prelude.Int.{ℤ, pos, negsuc}
use sleepytext.Prelude.Text.{codes}
use sleepytext.Memory.{Action, pure, crash, ◌>>=◌, ◌>>◌}
use sleepytext.Bytes.{Bytes, view, bs, balloc, bfree}
use sleepytext.Bytes.Print.{Piece, text, number, padded, BPair, bprintf}
use sleepytext.Http.{
  HttpResult, http_ok, http_bad_request, http_not_found, http_forbidden, http_switching_protocols,
  http_internal_server_error, http_last, HttpRawResponse, http_result, crlf,
}

pub record HttpResponse : Type 0 where
  pub header : Bytes
  pub payload : Bytes

-- The array ends before `http_last`.
abbrev pub http_result_text : HttpResult → Option (List ℕ)
http_result_text http_ok = some (codes "200 Ok")
http_result_text http_bad_request = some (codes "400 Bad Request")
http_result_text http_not_found = some (codes "404 Not Found")
http_result_text http_forbidden = some (codes "403 Forbidden")
http_result_text http_switching_protocols = some (codes "101 Switching Protocols")
http_result_text http_internal_server_error = some (codes "500 Internal Server Error")
http_result_text http_last = none

-- The element of the array; a read behind its end is a fault.
unfoldable pub status_bytes : HttpResult → Action Bytes
status_bytes status = elim (http_result_text status) [ none ↦ crash | some s ↦ pure (bs s) ]

-- `raw.status >= http_last` makes it the response of an internal error.
unfoldable pub known_status : HttpRawResponse → HttpRawResponse
known_status raw = elim raw.status [ http_last ↦ http_result http_internal_server_error | _ ↦ raw ]

abbrev pub is_switching : HttpResult → Bool
is_switching http_switching_protocols = true
is_switching _ = false

-- `%zd` prints a `size_t` as a signed number.
abbrev pub to_ssize : ℕ → ℤ
to_ssize n = if ltb n (2 ^ 63) then pos n else negsuc (2 ^ 64 - n - 1)

abbrev pub status_line : Bytes → List Piece
status_line status = text (codes "HTTP/1.1 ") ∷ padded status.len status.ptr ∷ text crlf ∷ []

abbrev pub second_line : HttpRawResponse → List Piece
second_line raw =
    if is_switching raw.status
    then text (codes "Upgrade: websocket\r\nConnection: Upgrade\r\n") ∷ []
    else text (codes "Content-Length: ") ∷ number (to_ssize raw.payload.len) ∷ text crlf ∷ []

pub view_at : List Bytes → ℕ → Action Bytes
view_at xs i = elim (get_elem? xs i) [ none ↦ crash | some x ↦ pure x ]

-- `n` is the number of rounds left, `raw.headers - i`.
unfoldable pub print_headers : ℕ → HttpRawResponse → ℕ → BPair → Action BPair
unfolding view_at
print_headers zero raw i p = pure p
print_headers (suc n) raw i p = do
  name ← view_at raw.header_name i
  val ← view_at raw.header_val i
  p' ←
      bprintf p.second
        (padded name.len name.ptr ∷ text (codes ": ") ∷ padded val.len val.ptr ∷ text crlf ∷ [])
  bfree val
  print_headers n raw (i + 1) p'

-- What is done once the status is known.
unfoldable pub assemble : HttpRawResponse → Action HttpResponse
unfolding print_headers status_bytes
assemble raw = do
  response_header_mem ← balloc 4096
  status ← status_bytes raw.status
  p ← bprintf response_header_mem (status_line status)
  p' ← bprintf p.second (second_line raw)
  p'' ← print_headers raw.headers raw 0 p'
  last ← bprintf p''.second (text crlf ∷ [])
  pure (record {
    header = view response_header_mem.ptr (last.second.ptr.off - response_header_mem.ptr.off);
    payload = raw.payload;
  })

unfoldable pub http_assemble_response : HttpRawResponse → Action HttpResponse
unfolding assemble known_status
http_assemble_response raw = assemble (known_status raw)
