-- ===== src/Http/Response/Plain.antt =====
-- src/http.c: the header of a response that carries no header fields.
use mathlib.Core.List.{append_assoc}
use mathlib.Core.Path.{subst}
use sleepytext.Prelude.{
  ℕ, ◌+◌, ◌≤◌, ◌≡◌, refl, ap, ◌∙◌, List, [], ◌∷◌, ◌++◌, length, length-append, if◌then◌else◌, inl,
  inr, Bool-cases, arith,
}
use sleepytext.Prelude.Text.{codes}
use sleepytext.Memory.{Mem, ok, load, peek}
use sleepytext.Memory.Holds.{Holds}
use sleepytext.Memory.Write.{at_heap, written, written-written}
use sleepytext.Bytes.{view, bs}
use sleepytext.Bytes.Fresh.{balloc-allocated, allocated}
use sleepytext.Bytes.Print.{BPair, Piece, text, print_pieces, show_int}
use sleepytext.Bytes.Print.Page.{rest_from, allocated-Page, bprintf-written, Page-Holds}
use sleepytext.Bytes.Print.Shown.{show_int-le}
use sleepytext.Http.{
  HttpResult, http_ok, http_bad_request, http_not_found, http_forbidden, http_switching_protocols,
  http_internal_server_error, http_last, HttpRawResponse, crlf,
}
use sleepytext.Http.Response.{
  status_bytes, is_switching, to_ssize, status_line, second_line, known_status, print_headers,
  http_assemble_response, assemble,
}

-- The number and the name of a status
abbrev status_name : HttpResult → List ℕ
status_name http_ok = codes "200 Ok"
status_name http_bad_request = codes "400 Bad Request"
status_name http_not_found = codes "404 Not Found"
status_name http_forbidden = codes "403 Forbidden"
status_name http_switching_protocols = codes "101 Switching Protocols"
status_name http_internal_server_error = codes "500 Internal Server Error"
status_name http_last = []

-- The status has its text in the array.
abbrev pub Known : HttpResult → Type 0
Known status = (m : Mem) → status_bytes status m ≡ ok (bs (status_name status)) m

-- The header that HTTP/1.1 asks for, without header fields of its own.
abbrev pub status_text : HttpResult → List ℕ
status_text status = codes "HTTP/1.1 " ++ (status_name status ++ crlf)

abbrev pub second_text : HttpRawResponse → List ℕ
second_text raw =
    if is_switching raw.status
    then codes "Upgrade: websocket\r\nConnection: Upgrade\r\n"
    else codes "Content-Length: " ++ (show_int (to_ssize raw.payload.len) ++ crlf)

abbrev pub header_text : HttpRawResponse → List ℕ
header_text raw = status_text raw.status ++ (second_text raw ++ crlf)

pub status_text-le : (status : HttpResult) → length (status_text status) ≤ 40
status_text-le http_ok = omega arith
status_text-le http_bad_request = omega arith
status_text-le http_not_found = omega arith
status_text-le http_forbidden = omega arith
status_text-le http_switching_protocols = omega arith
status_text-le http_internal_server_error = omega arith
status_text-le http_last = omega arith

pub second_text-le : (raw : HttpRawResponse) → length (second_text raw) ≤ 50
second_text-le raw = elim (Bool-cases (is_switching raw.status)) [
  | inl switching ↦ rw switching (omega arith)
  | inr other ↦ rw other (
      omega (
        arith,
        length-append (codes "Content-Length: ") (show_int (to_ssize raw.payload.len) ++ crlf),
        length-append (show_int (to_ssize raw.payload.len)) crlf,
        show_int-le (to_ssize raw.payload.len),
      ))
]

pub header_text-le : (raw : HttpRawResponse) → length (header_text raw) ≤ 92
header_text-le raw = omega (
  arith,
  status_text-le raw.status,
  second_text-le raw,
  length-append (status_text raw.status) (second_text raw ++ crlf),
  length-append (second_text raw) crlf,
)

abbrev pub named_line : HttpResult → List Piece
named_line status = status_line (bs (status_name status))

pub status_printed :
    (status : HttpResult) (m : Mem) → print_pieces (named_line status) m ≡ ok (status_text status) m
unfolding print_pieces load peek
status_printed http_ok m = refl
status_printed http_bad_request m = refl
status_printed http_not_found m = refl
status_printed http_forbidden m = refl
status_printed http_switching_protocols m = refl
status_printed http_internal_server_error m = refl
status_printed http_last m = refl

pub second_printed :
    (raw : HttpRawResponse) (m : Mem) → print_pieces (second_line raw) m ≡ ok (second_text raw) m
unfolding print_pieces
second_printed raw m = elim (Bool-cases (is_switching raw.status)) [
  | inl switching ↦ rw switching refl
  | inr other ↦ rw other refl
]

pub crlf_printed : (m : Mem) → print_pieces (text crlf ∷ []) m ≡ ok crlf m
unfolding print_pieces
crlf_printed m = refl

none_printed :
    (n : ℕ) (raw : HttpRawResponse) (i : ℕ) (p : BPair) (m : Mem)
    → n ≡ 0
    → print_headers n raw i p m ≡ ok p m
unfolding print_headers
none_printed n raw i p m none_left = rw none_left refl

assemble-header_text :
    (raw : HttpRawResponse) (m : Mem)
    → Known raw.status
    → raw.headers ≡ 0
    → 4096 ≤ m.room
    → (cs : List ℕ) × (assemble raw m
        ≡ ok
            (record {
              header = view (at_heap m.next 0) (length (header_text raw));
              payload = raw.payload;
            })
            (written (allocated 4096 m) m.next cs))
      × (length cs ≡ 4096)
      × Holds (written (allocated 4096 m) m.next cs) (at_heap m.next 0) (header_text raw)
unfolding assemble
assemble-header_text raw m known plain room =
    let first = status_text raw.status in
    let second = second_text raw in
    let k : ℕ = length first in
    let k' : ℕ = length first + length second in
    let small = status_text-le raw.status in
    let small' = second_text-le raw in
    let (cs₁, ran₁, size₁, page₁) =
      bprintf-written 0 k first (named_line raw.status) (allocated-Page m) refl (omega arith)
        (status_printed raw.status (allocated 4096 m)) (omega arith) in
    let m₁ = written (allocated 4096 m) m.next cs₁ in
    let (cs₂, ran₂, size₂, page₂) =
      bprintf-written k k' second (second_line raw) page₁ refl refl (second_printed raw m₁)
        (omega arith) in
    let m₂ = written m₁ m.next cs₂ in
    let p₂ : BPair = record {
      first = view (at_heap m.next k) (length second);
      second = rest_from m.next k';
    } in
    let (cs₃, ran₃, size₃, page₃) =
      bprintf-written k' (k' + 2) crlf (text crlf ∷ []) page₂
        (omega (arith, length-append first second)) refl (crlf_printed m₂) (omega arith) in
    let m₃ = written m₂ m.next cs₃ in
    let once : m₃ ≡ written (allocated 4096 m) m.next cs₃ =
      written-written m₁ m.next cs₂ cs₃ ∙ written-written (allocated 4096 m) m.next cs₁ cs₃ in
    (
      cs₃,
      rw
          (
            balloc-allocated 4096 m room,
            known (allocated 4096 m),
            ran₁,
            ran₂,
            none_printed raw.headers raw 0 p₂ m₂ plain,
            ran₃,
          )
          (ap (λ n. ok (record { header = view (at_heap m.next 0) n; payload = raw.payload }) m₃)
              (omega (arith, length-append first (second ++ crlf), length-append second crlf))
            ∙ ap
                (ok (record {
                  header = view (at_heap m.next 0) (length (header_text raw));
                  payload = raw.payload;
                }))
                once),
      size₃,
      subst (λ n. Holds n (at_heap m.next 0) (header_text raw)) once
          (subst (Holds m₃ (at_heap m.next 0)) (append_assoc first second crlf) (Page-Holds page₃)),
    )

known_status_of :
    (status : HttpResult) (raw : HttpRawResponse)
    → raw.status ≡ status
    → Known (known_status raw).status
unfolding known_status status_bytes
known_status_of http_ok raw e m = rw e refl
known_status_of http_bad_request raw e m = rw e refl
known_status_of http_not_found raw e m = rw e refl
known_status_of http_forbidden raw e m = rw e refl
known_status_of http_switching_protocols raw e m = rw e refl
known_status_of http_internal_server_error raw e m = rw e refl
known_status_of http_last raw e m = rw e refl

-- For a response without header fields, and with room for 4096 bytes, http_assemble_response ends in
-- a new object that begins with the status line, the Content-Length of the payload or the two lines
-- of a protocol switch, and an empty line, changes no other object, and returns the view of these and
-- the payload.
pub http_assemble_response-header_text :
    (raw : HttpRawResponse) (m : Mem)
    → (known_status raw).headers ≡ 0
    → 4096 ≤ m.room
    → (cs : List ℕ) × (http_assemble_response raw m
        ≡ ok
            (record {
              header = view (at_heap m.next 0) (length (header_text (known_status raw)));
              payload = (known_status raw).payload;
            })
            (written (allocated 4096 m) m.next cs))
      × (length cs ≡ 4096)
      × Holds
          (written (allocated 4096 m) m.next cs)
          (at_heap m.next 0)
          (header_text (known_status raw))
unfolding http_assemble_response
http_assemble_response-header_text raw m plain room =
    assemble-header_text (known_status raw) m (known_status_of raw.status raw refl) plain room
