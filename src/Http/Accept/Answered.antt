-- ===== src/Http/Accept/Answered.antt =====
-- src/http.c: `http_websocket_accept` on the header of a client's request.
use mathlib.Core.Path.{subst}
use sleepytext.Prelude.{
  ℕ, ◌≤◌, ◌≡◌, refl, sym, none, some, List, ◌∷◌, ◌++◌, ◌==◌, length, length-append, length-take,
  set, take, if◌then◌else◌, inl, inr, Bool-cases, arith,
}
use sleepytext.Prelude.Text.{codes}
use sleepytext.Prelude.Words.{int_max}
use sleepytext.Memory.{Mem, ok, fill}
use sleepytext.Memory.Overwrite.{overwrite, length-fill}
use sleepytext.Memory.Write.{at_heap, written}
use sleepytext.Bytes.{Bytes, bs, view}
use sleepytext.Bytes.Find.{scan}
use sleepytext.Bytes.Find.First.{Lacks}
use sleepytext.Bytes.Fresh.{allocated, allocated_own, balloc-allocated}
use sleepytext.Bytes.Number.Decimal.{decimal, btoi-decimal}
use sleepytext.Bytes.Print.Cstring.{read_bytes-Holds}
use sleepytext.Bytes.Print.Written.{write_bytes-overwrite}
use sleepytext.Bytes.Views.{Views, bs-Views}
use sleepytext.Http.{
  crlf, HttpRequest, HttpRawResponse, http_result, http_bad_request, http_switching_protocols,
  http_extract_param,
}
use sleepytext.Http.Accept.{Crypto, accept_key, http_websocket_accept}
use sleepytext.Http.Param.{field_line, http_extract_param_inner}

-- A line of a header, not its first and not its last, has this value behind the name, a colon and a
-- space, and the name is not found in front of the line.
pub record HasField (header name value : List ℕ) : Type 0 where
  pub before : List ℕ
  pub rest : List ℕ
  pub header_is : header ≡ before ++ b'\n' ∷ field_line name b':' b' ' value (crlf ++ rest)
  pub first : scan name name before 0 ≡ none
  pub plain : Lacks b'\r' value

value_le : {header name value : List ℕ} → HasField header name value → length value ≤ length header
value_le {header} {name} {value} h =
    let line = field_line name b':' b' ' value (crlf ++ h.rest) in
    subst (λ xs. length value ≤ length xs) (sym h.header_is)
      (omega (
        arith,
        length-append h.before (b'\n' ∷ line),
        length-append name (b':' ∷ b' ' ∷ (value ++ (crlf ++ h.rest))),
        length-append value (crlf ++ h.rest),
      ))

module _ {m : Mem} {header : Bytes} {xs : List ℕ} where
  extracted :
      (c : ℕ) (cs : List ℕ) {value : List ℕ}
      → Views m header xs
      → length xs ≤ int_max
      → HasField xs (c ∷ cs) value
      → Lacks b'\n' (c ∷ cs)
      → (r : Bytes) × (http_extract_param header (bs (c ∷ cs)) m ≡ ok r m) × Views m r value
  extracted c cs {value} v le h inner =
      http_extract_param_inner c cs h.before value b':' b' ' h.rest (rw h.header_is at v)
        (bs-Views (c ∷ cs)) (rw h.header_is at le) h.first inner h.plain

-- The identifier of RFC 6455, section 1.3
abbrev protocol_identifier : List ℕ
protocol_identifier = codes "258EAFA5-E914-47DA-95CA-C5AB0DC85B11"

-- The text that answers a key, as much of it as fits into the buffer of 128 bytes.
abbrev pub accept_text : Crypto → List ℕ → List ℕ
accept_text crypto key = take 128 (crypto.base64 (crypto.sha1 (key ++ protocol_identifier)))

-- A switch of protocols whose one header field has the value `val`.
abbrev pub switching : Bytes → HttpRawResponse
switching val =
    let result = http_result http_switching_protocols in
    record result {
      headers = 1;
      header_name = set result.header_name 0 (bs (codes "Sec-WebSocket-Accept"));
      header_val = set result.header_val 0 val;
    }

-- The memory in which `text` stands in a new object of 128 bytes.
abbrev pub with_text : List ℕ → Mem → Mem
with_text text m =
    written (allocated 128 m) m.next (overwrite (fill (m.garbage m.next) 0 128) 0 text)

module _ {m : Mem} (crypto : Crypto) (request : HttpRequest) {xs : List ℕ} where
  accept_key-text :
      {key : List ℕ}
      → Views m request.header xs
      → length xs ≤ int_max
      → HasField xs (codes "Sec-WebSocket-Key") key
      → 128 ≤ m.room
      → accept_key crypto request m
        ≡ ok
            (switching (view (at_heap m.next 0) (length (accept_text crypto key))))
            (with_text (accept_text crypto key) m)
  unfolding accept_key
  accept_key-text {key} v le h room =
      let (r, ran, views) = extracted b'S' (codes "ec-WebSocket-Key") v le h (omega arith) in
      let text = accept_text crypto key in
      let read = read_bytes-Holds r.len views.holds views.len_is in
      let short = length-take 128 (crypto.base64 (crypto.sha1 (key ++ protocol_identifier))) in
      let wrote =
        write_bytes-overwrite text m.next 0 (fill (m.garbage m.next) 0 128) (allocated 128 m)
          (allocated_own 128 m) (omega (arith, short, length-fill (m.garbage m.next) 0 128)) in
      rw (ran, read, balloc-allocated 128 m room, wrote) refl

  -- On a header of at most 2^31 - 1 bytes with a line for the version, a decimal number that fits in int,
  -- and one for the key, http_websocket_accept refuses every version but 13, and answers 13 with a switch
  -- of protocols, whose one header field points at a new object with the base64 text of the SHA-1 digest
  -- of the key and the identifier of RFC 6455 behind it, cut to 128 bytes, where there is room for these.
  pub http_websocket_accept-answered :
      {digits key : List ℕ} {v : ℕ}
      → Views m request.header xs
      → length xs ≤ int_max
      → HasField xs (codes "Sec-WebSocket-Version") digits
      → decimal 0 digits ≡ some v
      → v ≤ int_max
      → HasField xs (codes "Sec-WebSocket-Key") key
      → 128 ≤ m.room
      → http_websocket_accept crypto request m ≡ (
          if v == 13
          then ok
              (switching (view (at_heap m.next 0) (length (accept_text crypto key))))
              (with_text (accept_text crypto key) m)
          else ok (http_result http_bad_request) m)
  unfolding http_websocket_accept
  http_websocket_accept-answered {v = n} v le version d fits key room =
      let (r, ran, views) =
        extracted b'S' (codes "ec-WebSocket-Version") v le version (omega arith) in
      let number = btoi-decimal views (omega (arith, le, value_le version)) d fits in
      elim (Bool-cases (n == 13)) [
        | inl current ↦ rw (ran, number, current) (accept_key-text v le key room)
        | inr other ↦ rw (ran, number, other) refl
      ]
