-- ===== src/Http/Websocket.antt =====
-- src/http.c: the frames of a WebSocket. A frame's `buffer` has 14 bytes; a read or a write behind
-- them is a fault. The three header structures have the layout of x86-64: the mask is aligned to
-- four bytes and the 64-bit length to eight, so their sizes are 8, 8 and 24.
pub mod Frames
use Prim.Native.Nat.{bit_xor}
use sleepytext.Prelude.{
  ℕ, zero, suc, ◌+◌, ◌-◌, ◌*◌, ◌/◌, ◌%◌, Bool, true, false, ◌&&◌, Option, none, some, List, [], ◌∷◌,
  leb, ltb, ◌==◌, if◌then◌else◌, length, get_elem?, set, not,
}
use sleepytext.Prelude.Int.{ℤ, pos, negsuc}
use sleepytext.Prelude.Words.{sub64, int_max}
use sleepytext.Memory.{◌+p◌, Action, pure, crash, out_of_fuel, ◌>>=◌, ◌>>◌, load, store, inc_int}
use sleepytext.Bytes.{Bytes}

-- `maskbytes` is the union of `mask` and `maskbytes`, by its four bytes in memory.
pub record HttpWebsocketFrame : Type 0 where
  pub len : ℕ
  pub maskbytes : List ℕ
  pub parsed_header : Bool
  pub buffer : List ℕ
  pub header_len : ℕ
  pub state : ℕ

-- The four bytes from offset `i` on.
four_bytes : List ℕ → ℕ → Action (List ℕ)
four_bytes xs i m = elim (get_elem? xs i) [
  | none ↦ crash m
  | some a ↦ elim (get_elem? xs (i + 1)) [
    | none ↦ crash m
    | some b ↦ elim (get_elem? xs (i + 2)) [
      | none ↦ crash m
      | some c ↦ elim (get_elem? xs (i + 3)) [
        | none ↦ crash m
        | some d ↦ pure (a ∷ b ∷ c ∷ d ∷ []) m
      ]
    ]
  ]
]

byte_at : List ℕ → ℕ → Action ℕ
byte_at xs i m = elim (get_elem? xs i) [ none ↦ crash m | some c ↦ pure c m ]

-- An unsigned number of `n` bytes in the byte order of the machine, the lowest byte first.
little_endian : List ℕ → ℕ → ℕ → Action ℕ
unfolding byte_at
little_endian xs i zero = pure 0
little_endian xs i (suc n) = do
  c ← byte_at xs i
  rest ← little_endian xs (i + 1) n
  pure (c + 256 * rest)

abbrev pub with_header : HttpWebsocketFrame → ℕ → List ℕ → HttpWebsocketFrame
with_header frame n mask = record frame { len = n; maskbytes = mask; parsed_header = true }

-- The next offset that a member of the given alignment can have.
abbrev align : ℕ → ℕ → ℕ
align a i = (i + a - 1) / a * a

-- Where a header structure has its second length and its mask, and its size.
pub record HeaderStruct : Type 0 where
  pub exlen_at : ℕ
  pub mask_at : ℕ
  pub size : ℕ

-- The structure with `k` bytes of a second length between the two bytes and the mask.
abbrev make_header_struct : ℕ → HeaderStruct
make_header_struct k =
    let widest = if ltb 4 k then k else 4 in
    let exlen_at = align (if k == 0 then 1 else k) 2 in
    let mask_at = align 4 (exlen_at + k) in
    record { exlen_at = exlen_at; mask_at = mask_at; size = align widest (mask_at + 4) }

abbrev header_7 : HeaderStruct
header_7 = make_header_struct 0

abbrev header_16 : HeaderStruct
header_16 = make_header_struct 2

abbrev header_64 : HeaderStruct
header_64 = make_header_struct 8

-- The result is what the function returns, with the new frame.
unfoldable pub http_websocket_parse_header : HttpWebsocketFrame → Action (ℕ × HttpWebsocketFrame)
unfolding four_bytes byte_at little_endian
http_websocket_parse_header old =
    let frame = record old { state = 0 } in
    if ltb frame.header_len header_7.size then pure (0, frame) else (do
      h ← byte_at frame.buffer 1
      if ltb h 255
          then (do
            mask ← four_bytes frame.buffer header_7.mask_at
            pure (header_7.size, with_header frame (sub64 h 128) mask))
          else if leb header_16.size frame.header_len
          then (if h == 255
              then (do
                exlen ← little_endian frame.buffer header_16.exlen_at 2
                mask ← four_bytes frame.buffer header_16.mask_at
                pure (header_16.size, with_header frame exlen mask))
              else if h == header_64.size
              then (do
                exlen ← little_endian frame.buffer header_64.exlen_at 8
                mask ← four_bytes frame.buffer header_64.mask_at
                pure (header_64.size, with_header frame exlen mask))
              else pure (0, frame))
          else pure (0, frame))

-- The inner loop, of at most 14 rounds: `n` is the number left, `j` runs from `i`. Every round
-- copies byte `i` of the data.
fill_header : ℕ → Bytes → ℕ → ℕ → HttpWebsocketFrame → Action HttpWebsocketFrame
fill_header zero data_in i j frame = pure frame
fill_header (suc n) data_in i j frame =
    if ltb j data_in.len
    then (do
      c ← load (data_in.ptr +p i)
      if ltb frame.header_len (length frame.buffer)
          then fill_header n data_in i (j + 1) (record frame {
            buffer = set frame.buffer frame.header_len c;
            header_len = frame.header_len + 1;
          })
          else crash)
    else pure frame

pub record ParseResult : Type 0 where
  pub code : ℤ
  pub out : Bytes
  pub frame : HttpWebsocketFrame

add_int : ℕ → ℕ → Action ℕ
add_int i r = if leb (i + r) int_max then pure (i + r) else crash

-- `while (data.len < i)`; the fuel bounds its rounds.
unfoldable pub parse_loop : ℕ → Bytes → Bytes → ℕ → ℕ → HttpWebsocketFrame → Action ParseResult
unfolding http_websocket_parse_header fill_header add_int byte_at
parse_loop zero data_in out i k frame = λ m. out_of_fuel
parse_loop (suc fuel) data_in out i k frame =
    if ltb data_in.len i
    then (if not frame.parsed_header
        then (do
          filled ← fill_header 14 data_in i i frame
          (r, parsed) ← http_websocket_parse_header filled
          if r == 0
              then pure (record { code = negsuc 0; out = out; frame = parsed })
              else (do i' ← add_int i r; parse_loop fuel data_in out i' k parsed))
        else (do
          c ← load (data_in.ptr +p i)
          mask ← byte_at frame.maskbytes (frame.state % 4)
          store (out.ptr +p k) (bit_xor c mask)
          i' ← inc_int i
          k' ← inc_int k
          let next = record frame { state = frame.state + 1 }
          parse_loop fuel data_in out i' k' (record next {
            parsed_header = if k' == frame.len then false else next.parsed_header;
          })))
    else pure (record { code = pos 0; out = record out { len = k }; frame = frame })

unfoldable pub http_websocket_parse : ℕ → Bytes → Bytes → HttpWebsocketFrame → Action ParseResult
unfolding parse_loop
http_websocket_parse fuel data_in out frame = parse_loop fuel data_in out 0 0 frame
