-- ===== src/Http/Websocket/Frames.antt =====
-- src/http.c: what the parser of WebSocket frames makes of its input.
use sleepytext.Prelude.{
  ℕ, zero, suc, ◌+◌, ◌*◌, ◌≤◌, ◌<◌, ◌≡◌, refl, true, some, List, [], ◌∷◌, leb, ltb, ◌==◌,
  if◌then◌else◌, length, get_elem?, inl, inr, Bool-cases, arith,
}
use sleepytext.Prelude.Int.{pos}
use sleepytext.Prelude.Words.{sub64}
use sleepytext.Memory.{Mem, ok}
use sleepytext.Bytes.{Bytes}
use sleepytext.Http.Websocket.{
  HttpWebsocketFrame, http_websocket_parse_header, http_websocket_parse, with_header,
}

-- Whatever the data, the loop of `http_websocket_parse` makes no round: the function reports
-- success and an empty output, and leaves the frame and the memory alone.
pub http_websocket_parse_idle :
    (fuel : ℕ) (data_in out : Bytes) (frame : HttpWebsocketFrame) (m : Mem)
    → http_websocket_parse (suc fuel) data_in out frame m
      ≡ ok (record { code = pos 0; out = record out { len = 0 }; frame = frame }) m
unfolding http_websocket_parse
http_websocket_parse_idle fuel data_in out frame m = ground arith

abbrev pub AllBytes : List ℕ → Type 0
AllBytes [] = Unit
AllBytes (x ∷ xs) = (x < 256) × AllBytes xs

-- The buffer is a `uint8_t[14]`.
pub record IsFrame (frame : HttpWebsocketFrame) : Type 0 where
  pub size : length frame.buffer ≡ 14
  pub bytes : AllBytes frame.buffer

get_byte :
    (xs : List ℕ) (i : ℕ)
    → AllBytes xs
    → i < length xs
    → (x : ℕ) × (get_elem? xs i ≡ some x) × (x < 256)
get_byte [] i b h = elim h [ ]
get_byte (x ∷ xs) zero b h = (x, refl, b.0)
get_byte (x ∷ xs) (suc i) b h = get_byte xs i b.1 (omega arith)

-- What `http_websocket_parse_header` makes of a frame.
pub record HeaderResult (frame : HttpWebsocketFrame) (r : ℕ) (f : HttpWebsocketFrame) : Type 0 where
  pub code : r ≡ (if ltb frame.header_len 8 then 0 else 8)
  pub parsed : f.parsed_header ≡ (if ltb frame.header_len 8 then frame.parsed_header else true)
  pub restarted : f.state ≡ 0

-- Parsing a header never reads behind the buffer: it returns 0 and parses nothing on less than 8
-- bytes, and otherwise marks the header as parsed and takes 8 bytes, never the 24 of the long form.
pub http_websocket_parse_header_total :
    (frame : HttpWebsocketFrame) (m : Mem)
    → IsFrame frame
    → (r : ℕ) × (f : HttpWebsocketFrame) × (http_websocket_parse_header frame m ≡ ok (r, f) m)
      × HeaderResult frame r f
unfolding http_websocket_parse_header
http_websocket_parse_header_total frame m v =
    let (h, at1, small) = get_byte frame.buffer 1 v.bytes (omega (arith, v.size)) in
    let (b2, at2, _) = get_byte frame.buffer 2 v.bytes (omega (arith, v.size)) in
    let (b3, at3, _) = get_byte frame.buffer 3 v.bytes (omega (arith, v.size)) in
    let (k0, at4, _) = get_byte frame.buffer 4 v.bytes (omega (arith, v.size)) in
    let (k1, at5, _) = get_byte frame.buffer 5 v.bytes (omega (arith, v.size)) in
    let (k2, at6, _) = get_byte frame.buffer 6 v.bytes (omega (arith, v.size)) in
    let (k3, at7, _) = get_byte frame.buffer 7 v.bytes (omega (arith, v.size)) in
    let start = record frame { state = 0 } in
    let mask = k0 ∷ k1 ∷ k2 ∷ k3 ∷ [] in
    elim (Bool-cases (ltb frame.header_len 8)) [
      | inl short ↦ (
        0,
        start,
        rw short refl,
        record { code = rw short refl; parsed = rw short refl; restarted = refl },
      )
      | inr long ↦ elim (Bool-cases (ltb h 255)) [
        | inl seven ↦ (
          8,
          with_header start (sub64 h 128) mask,
          ground arith,
          record { code = rw long refl; parsed = rw long refl; restarted = refl },
        )
        | inr wide ↦
            let h_is : (h == 255) ≡ true = ground arith in
            let enough : leb 8 frame.header_len ≡ true = ground arith in
            (
              8,
              with_header start (b2 + 256 * (b3 + 256 * 0)) mask,
              ground arith,
              record { code = rw long refl; parsed = rw long refl; restarted = refl },
            )
      ]
    ]

-- A masked frame header of RFC 6455 with a length `n` of at most 125: the key stands in bytes 2 to
-- 5, and the payload begins at byte 6. `http_websocket_parse_header` gets the length right, but
-- takes bytes 4 to 7 for the key and 8 bytes for the header.
pub http_websocket_parse_header_rfc :
    (frame : HttpWebsocketFrame) (m : Mem) (flags n k0 k1 k2 k3 p0 p1 : ℕ) (rest : List ℕ)
    → frame.buffer ≡ flags ∷ (128 + n) ∷ k0 ∷ k1 ∷ k2 ∷ k3 ∷ p0 ∷ p1 ∷ rest
    → 8 ≤ frame.header_len
    → n ≤ 125
    → http_websocket_parse_header frame m
      ≡ ok (8, with_header (record frame { state = 0 }) n (k2 ∷ k3 ∷ p0 ∷ p1 ∷ [])) m
unfolding http_websocket_parse_header sub64
http_websocket_parse_header_rfc frame m flags n k0 k1 k2 k3 p0 p1 rest layout enough small =
    ground arith
