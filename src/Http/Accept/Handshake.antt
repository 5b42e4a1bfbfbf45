-- ===== src/Http/Accept/Handshake.antt =====
-- src/http.c: the answer to a client that asks for a websocket, as it is sent.
use mathlib.Core.List.{append_assoc}
use mathlib.Core.Path.{subst}
use sleepytext.Prelude.{
  ℕ, zero, suc, ◌+◌, ◌≤◌, ◌<◌, ◌≡◌, refl, ap, ◌∙◌, some, List, [], ◌∷◌, ◌++◌, length, get_elem?,
  arith,
}
use sleepytext.Prelude.Text.{codes}
use sleepytext.Prelude.Words.{int_max}
use sleepytext.Memory.{Mem, ok, fill, ◌>>=◌}
use sleepytext.Memory.Holds.{Holds}
use sleepytext.Memory.Overwrite.{
  overwrite, StandsAt, nil, cons, length-fill, overwrite-StandsAt, get_elem?-overwrite_above,
}
use sleepytext.Memory.Write.{at_heap, written}
use sleepytext.Bytes.{bvoid, view}
use sleepytext.Bytes.Find.First.{Lacks}
use sleepytext.Bytes.Number.Decimal.{decimal}
use sleepytext.Bytes.Print.Page.{StandsAt-append}
use sleepytext.Bytes.Stored.{fresh-Stored, written_self-Stored}
use sleepytext.Bytes.Views.{Views}
use sleepytext.Http.{HttpRequest, HttpRawResponse, http_switching_protocols, crlf}
use sleepytext.Http.Accept.{Crypto, http_websocket_accept}
use sleepytext.Http.Accept.Answered.{
  HasField, accept_text, switching, with_text, http_websocket_accept-answered,
}
use sleepytext.Http.Response.{http_assemble_response, known_status, status_bytes}
use sleepytext.Http.Response.Field.{OneField, field_header, assemble-field_header}

get_elem?-fill :
    (g : ℕ → ℕ) (from n i : ℕ) → i < n → get_elem? (fill g from n) i ≡ some (g (from + i))
unfolding fill
get_elem?-fill g from zero i h = absurd (omega arith)
get_elem?-fill g from (suc n) zero h = ap (λ j. some (g j)) (omega arith)
get_elem?-fill g from (suc n) (suc i) h =
    get_elem?-fill g (from + 1) n i (omega arith) ∙ ap (λ j. some (g j)) (omega arith)

-- A text in a new object ends where the object happens to hold a NUL.
terminated :
    (g : ℕ → ℕ) (s : List ℕ)
    → length s < 128
    → g (length s) ≡ 0
    → StandsAt (overwrite (fill g 0 128) 0 s) 0 (s ++ 0 ∷ [])
terminated g s short nul =
    let cs = fill g 0 128 in
    let size = length-fill g 0 128 in
    let at_start : g (0 + length s) ≡ g (length s) = ap g (omega arith) in
    StandsAt-append (length s) (overwrite-StandsAt cs 0 s (omega (arith, size))) (omega arith) (
      cons
        (get_elem?-overwrite_above cs 0 (length s) s (omega arith)
          ∙ get_elem?-fill g 0 128 (length s) short
          ∙ ap some (at_start ∙ nul))
        nil)

-- The answer of RFC 6455, with the text for the key.
abbrev pub handshake_start : List ℕ
handshake_start =
    codes "HTTP/1.1 101 Switching Protocols\r\n"
    ++ (codes "Upgrade: websocket\r\nConnection: Upgrade\r\nSec-WebSocket-Accept: ")

abbrev pub handshake_text : List ℕ → List ℕ
handshake_text value = handshake_start ++ (value ++ (crlf ++ crlf))

shown :
    (value : List ℕ) (raw : HttpRawResponse)
    → raw.status ≡ http_switching_protocols
    → field_header raw (codes "Sec-WebSocket-Accept") value ≡ handshake_text value
shown value raw status_is = rw status_is (ap (◌++◌ handshake_start) (append_assoc value crlf crlf))

module _ {m : Mem} (crypto : Crypto) (request : HttpRequest) {xs : List ℕ} where
  -- For version 13, what http_assemble_response makes of the answer of http_websocket_accept is in memory
  -- the status line of a switch of protocols, the two lines that go with it and the accept text for the
  -- key, and an empty line, where that text has less than 128 bytes and no NUL, the byte that the new
  -- object happens to hold behind it is a NUL, and there is room for the two objects.
  pub http_websocket_accept-handshake :
      {digits key : List ℕ}
      → Views m request.header xs
      → length xs ≤ int_max
      → HasField xs (codes "Sec-WebSocket-Version") digits
      → decimal 0 digits ≡ some 13
      → HasField xs (codes "Sec-WebSocket-Key") key
      → 4224 ≤ m.room
      → length (accept_text crypto key) < 128
      → Lacks 0 (accept_text crypto key)
      → m.garbage m.next (length (accept_text crypto key)) ≡ 0
      → (m' : Mem) × ((http_websocket_accept crypto request >>= http_assemble_response) m
          ≡ ok
              (record {
                header =
                    view
                      (at_heap (m.next + 1) 0)
                      (length (handshake_text (accept_text crypto key)));
                payload = bvoid;
              })
              m')
        × Holds m' (at_heap (m.next + 1) 0) (handshake_text (accept_text crypto key))
  unfolding http_assemble_response known_status status_bytes written
  http_websocket_accept-handshake {key = key} v le version is_13 has_key room short plain nul =
      let value = accept_text crypto key in
      let m1 = with_text value m in
      let raw = switching (view (at_heap m.next 0) (length value)) in
      let name = codes "Sec-WebSocket-Accept" in
      let accepted =
        http_websocket_accept-answered crypto request v le version is_13 (omega arith) has_key
          (omega arith) in
      let field : OneField m1 raw name value m.next
          (overwrite (fill (m.garbage m.next) 0 128) 0 value) =
        record {
          one = refl;
          name_is = refl;
          value_is = refl;
          stored = written_self-Stored _ (fresh-Stored 128 m);
          stands = terminated (m.garbage m.next) value short nul;
          name_plain = omega arith;
          value_plain = plain;
          short = omega arith;
        } in
      let (m2, ran, holds) =
        subst
          (λ h.
            (m2 : Mem) × (http_assemble_response raw m1
              ≡ ok (record { header = view (at_heap (m.next + 1) 0) (length h); payload = bvoid })
                  m2)
            × Holds m2 (at_heap (m.next + 1) 0) h)
          (shown value raw refl) (assemble-field_header field (λ m. refl) (omega arith)) in
      (m2, rw accepted ran, holds)
