-- ===== src/Http/Request.antt =====
-- src/http.c: `http_parse_request` on a request in memory.
use mathlib.Core.List.{append_assoc}
use sleepytext.Prelude.{
  ℕ, ◌%◌, ◌^◌, ◌≤◌, ◌≡◌, refl, none, some, Bool, true, false, List, [], ◌∷◌, ◌++◌, ◌==◌, length,
  length-append, arith,
}
use sleepytext.Prelude.Words.{int_max}
use sleepytext.Memory.{Mem, ok}
use sleepytext.Memory.Holds.{Holds, Holds-append}
use sleepytext.Bytes.{Bytes, bs}
use sleepytext.Bytes.Views.{Views, bs-Views}
use sleepytext.Bytes.Find.{scan}
use sleepytext.Bytes.Find.First.{Lacks, bfind_at, bfind_past, bfind-none, bfind_first, bfind_starts}
use sleepytext.Bytes.Number.Decimal.{decimal, btoi-decimal}
use sleepytext.Http.Header.{join_lines, AreLines, scan_header, decimal-Lacks}
use sleepytext.Http.{
  crlf, crlf_crlf, content_length, space, HttpRequest, partial_request, body_complete, request_addr,
  http_parse_request,
}

-- The first line: a method, the address and the rest, with spaces between them.
abbrev pub first_line : List ℕ → List ℕ → List ℕ → List ℕ
first_line method addr version = method ++ (space ++ (addr ++ (space ++ version)))

module _ {m : Mem} where
  request_addr_lem :
      {header : Bytes} (method addr tail : List ℕ)
      → Views m header (method ++ (space ++ (addr ++ (space ++ tail))))
      → length (method ++ (space ++ (addr ++ (space ++ tail)))) ≤ int_max
      → Lacks b' ' method
      → Lacks b' ' addr
      → (r : Bytes) × (request_addr header m ≡ ok r m)
        × Views m r addr
        × Holds m r.ptr (addr ++ space)
  unfolding request_addr
  request_addr_lem method addr tail v le lm la =
      let size = length-append method (space ++ (addr ++ (space ++ tail))) in
      let (f, found, parts) =
        bfind_first {what = bs space} method (addr ++ (space ++ tail)) v (bs-Views space) le lm in
      let (g, found', parts') =
        bfind_first {what = bs space} addr tail parts.after (bs-Views space) (omega arith) la in
      let starts =
        bfind_starts {what = bs space} parts.after (bs-Views space) (omega arith) found' in
      let shown = rw (← append_assoc addr space tail) at parts.after.holds in
      (
        g.before,
        rw (found, found') refl,
        parts'.before,
        rw starts (Holds-append {m = m} (addr ++ space) shown).0,
      )

  -- No Content-Length: any body is complete.
  body_complete_unknown :
      {header : Bytes} (payload : Bytes) {xs : List ℕ}
      → Views m header xs
      → length xs ≤ int_max
      → scan content_length content_length xs 0 ≡ none
      → body_complete header payload m ≡ ok true m
  unfolding body_complete
  body_complete_unknown payload v le missing =
      rw (bfind-none {what = bs content_length} _ _ v (bs-Views content_length) le missing) refl

  body_complete_known :
      {header payload : Bytes} (b digits rest body : List ℕ) {v : ℕ}
      → Views m header (b ++ b'\n' ∷ (content_length ++ (digits ++ (crlf ++ rest))))
      → Views m payload body
      → length (b ++ b'\n' ∷ (content_length ++ (digits ++ (crlf ++ rest)))) ≤ int_max
      → scan content_length content_length b 0 ≡ none
      → decimal 0 digits ≡ some v
      → v ≤ int_max
      → body_complete header payload m ≡ ok (v == length body) m
  unfolding body_complete
  body_complete_known b digits rest body {v} vh vp le missing d fits =
      let behind = digits ++ (crlf ++ rest) in
      let size = length-append b (b'\n' ∷ (content_length ++ behind)) in
      let size' = length-append digits (crlf ++ rest) in
      let (f, found, parts) =
        bfind_past {what = bs content_length} b b'\n' _ _ behind vh (bs-Views content_length) le
          missing (omega arith) in
      let (g, found', parts') =
        bfind_first {what = bs crlf} digits rest parts.after (bs-Views crlf) (omega arith)
          (decimal-Lacks 0 digits v d) in
      let small : v % 2 ^ 64 ≡ v = omega arith in
      rw (found, parts.found.len_is, found', btoi-decimal parts'.before (omega arith) d fits)
        (rw (vp.len_is, small) refl)

-- A request as the client sends it: its header is made of lines, the first one holds the address
-- between two spaces.
pub record IsRequest (text method addr version payload : List ℕ) (lines : List (List ℕ))
    : Type 0 where
  pub text_is : text ≡ join_lines (first_line method addr version) lines ++ (crlf_crlf ++ payload)
  pub are_lines : AreLines (first_line method addr version) lines
  pub method_plain : Lacks b' ' method
  pub addr_plain : Lacks b' ' addr

pub header_le : (h t : List ℕ) → length (h ++ t) ≤ int_max → length h ≤ int_max
header_le h t le = omega (arith, length-append h t)

-- What the parsed request views.
pub record Holding (m : Mem) (r : HttpRequest) (h p a : List ℕ) : Type 0 where
  pub header_view : Views m r.header h
  pub payload_view : Views m r.payload p
  pub addr_view : Views m r.addr a
  -- A space stands behind the address.
  pub addr_holds : Holds m r.addr.ptr (a ++ space)

-- The result where the body is complete, and where it is not.
abbrev pub Parsed : Bool → Mem → HttpRequest → List ℕ → List ℕ → List ℕ → Type 0
Parsed true m r h p a = Holding m r h p a
Parsed false m r h p a = r ≡ partial_request

first_line_tail :
    (method addr version : List ℕ) (lines : List (List ℕ))
    → (tail : List ℕ) × (join_lines (first_line method addr version) lines
        ≡ method ++ (space ++ (addr ++ (space ++ tail))))
first_line_tail method addr version [] = (version, refl)
first_line_tail method addr version (next ∷ lines) =
    (version ++ (crlf ++ join_lines next lines), simp append_assoc)

module _ {m : Mem} {buffer : Bytes} {text method addr version payload : List ℕ}
    (lines : List (List ℕ)) where
  parse_known :
      IsRequest text method addr version payload lines
      → Views m buffer text
      → length text ≤ int_max
      → (c : Bool)
      → ((h p : Bytes)
          → Views m h (join_lines (first_line method addr version) lines)
          → Views m p payload
          → body_complete h p m ≡ ok c m)
      → (r : HttpRequest) × (http_parse_request buffer m ≡ ok r m)
        × Parsed c m r (join_lines (first_line method addr version) lines) payload addr
  unfolding http_parse_request
  parse_known q v le c complete =
      let h = join_lines (first_line method addr version) lines in
      let le' : length (h ++ (crlf_crlf ++ payload)) ≤ int_max = rw q.text_is at le in
      let size = length-append h (crlf_crlf ++ payload) in
      let (f, found, parts) =
        bfind_at {what = bs crlf_crlf} h _ _ payload (rw q.text_is at v) (bs-Views crlf_crlf) le'
          (scan_header (first_line method addr version) lines payload q.are_lines) in
      let (tail, tail_is) = first_line_tail method addr version lines in
      let (a, addr_is, addr_view, addr_holds) =
        request_addr_lem method addr tail (rw tail_is at parts.before)
          (rw tail_is at (header_le h (crlf_crlf ++ payload) le')) q.method_plain q.addr_plain in
      elim c
          as (λ c'.
            body_complete f.before f.after m ≡ ok c' m
            → (r : HttpRequest) × (http_parse_request buffer m ≡ ok r m)
              × Parsed c' m r h payload addr) [
                | true ↦ λ e. (
                  record { header = f.before; payload = f.after; addr = a },
                  rw (found, parts.found.len_is, e, addr_is) refl,
                  record {
                    header_view = parts.before;
                    payload_view = parts.after;
                    addr_view = addr_view;
                    addr_holds = addr_holds;
                  },
                )
                | false ↦ λ e. (partial_request, rw (found, parts.found.len_is, e) refl, refl)
              ]
        (complete f.before f.after parts.before parts.after)

  -- A request of at most 2^31 - 1 bytes, whose header is made of lines, the first with the address
  -- between its first two spaces, and in whose header no Content-Length is found, is parsed: the
  -- three views of the result hold the header, the payload and the address.
  pub http_parse_request_unsized :
      IsRequest text method addr version payload lines
      → Views m buffer text
      → length text ≤ int_max
      → scan content_length content_length (join_lines (first_line method addr version) lines) 0
        ≡ none
      → (r : HttpRequest) × (http_parse_request buffer m ≡ ok r m)
        × Holding m r (join_lines (first_line method addr version) lines) payload addr
  http_parse_request_unsized q v le missing = parse_known q v le true (λ h p vh vp.
      body_complete_unknown p vh
        (header_le (join_lines (first_line method addr version) lines) (crlf_crlf ++ payload)
          (rw q.text_is at le))
        missing)

  -- A request of at most 2^31 - 1 bytes, whose header is made of lines, the first with the address
  -- between its first two spaces, with the header `Content-Length: v`, where `v` fits in `int`, behind
  -- lines in which this name is not found, and another line behind it, is parsed if its payload has
  -- `v` bytes, and is taken for a partial one, with an empty address, if not.
  pub http_parse_request_sized :
      (b digits rest : List ℕ) {v : ℕ}
      → IsRequest text method addr version payload lines
      → Views m buffer text
      → length text ≤ int_max
      → join_lines (first_line method addr version) lines
        ≡ b ++ b'\n' ∷ (content_length ++ (digits ++ (crlf ++ rest)))
      → scan content_length content_length b 0 ≡ none
      → decimal 0 digits ≡ some v
      → v ≤ int_max
      → (r : HttpRequest) × (http_parse_request buffer m ≡ ok r m)
        × Parsed
            (v == length payload)
            m
            r
            (join_lines (first_line method addr version) lines)
            payload
            addr
  http_parse_request_sized b digits rest {v} q w le split missing d fits =
      parse_known q w le (v == length payload) (λ h p vh vp.
        body_complete_known b digits rest payload (rw split at vh) vp
          (rw split at (
            header_le (join_lines (first_line method addr version) lines) (crlf_crlf ++ payload)
              (rw q.text_is at le)))
          missing d fits)

-- A text in which the end of the header is not found is a partial request.
pub http_parse_request_partial :
    {m : Mem} {buffer : Bytes} {text : List ℕ}
    → Views m buffer text
    → length text ≤ int_max
    → scan crlf_crlf crlf_crlf text 0 ≡ none
    → http_parse_request buffer m ≡ ok partial_request m
unfolding http_parse_request
http_parse_request_partial v le missing =
    rw (bfind-none {what = bs crlf_crlf} _ _ v (bs-Views crlf_crlf) le missing) refl
