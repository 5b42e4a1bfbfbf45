-- ===== src/Http/Response/Field.antt =====
-- src/http.c: the header of a response that carries one header field, whose value stands in an object
-- of its own.
use mathlib.Core.List.{append-nil}
use mathlib.Core.Path.{subst}
use sleepytext.Prelude.{
  ℕ, ◌+◌, ◌-◌, ◌≤◌, ◌<◌, ◌≡◌, ◌≢◌, refl, sym, ap, some, List, [], ◌∷◌, ◌++◌, length, length-append,
  get_elem?, arith,
}
use sleepytext.Prelude.Text.{codes}
use sleepytext.Memory.{Mem, Ptr, static, ok}
use sleepytext.Memory.Holds.{Holds}
use sleepytext.Memory.Overwrite.{StandsAt}
use sleepytext.Memory.Write.{at_heap, written}
use sleepytext.Bytes.{Bytes, bs, view}
use sleepytext.Bytes.Find.First.{Lacks}
use sleepytext.Bytes.Fresh.{balloc-allocated, allocated}
use sleepytext.Bytes.Print.{text, padded, print_pieces}
use sleepytext.Bytes.Print.Cstring.{c_string-Holds}
use sleepytext.Bytes.Print.Page.{Page, rest_from, allocated-Page, bprintf-written, Page-Holds}
use sleepytext.Bytes.Stored.{
  StandsAt-Views, Stored, allocated-Stored, written-Stored, freed, bfree-freed,
}
use sleepytext.Bytes.Views.{static-Holds}
use sleepytext.Http.{HttpRawResponse, crlf}
use sleepytext.Http.Response.Plain.{
  status_text, second_text, Known, named_line, status_text-le, second_text-le, status_printed,
  second_printed, crlf_printed,
}
use sleepytext.Http.Response.{second_line, print_headers, view_at, assemble}

bs-Holds : {m : Mem} (s : List ℕ) → Holds m (bs s).ptr (s ++ 0 ∷ [])
bs-Holds {m} s =
    subst (λ xs. Holds m (record { block = static xs; off = 0 }) (s ++ 0 ∷ []))
      (append-nil (s ++ 0 ∷ [])) (static-Holds [] (s ++ 0 ∷ []) [] 0 refl)

abbrev pub field_text : List ℕ → List ℕ → List ℕ
field_text name value = name ++ (codes ": " ++ (value ++ crlf))

field_printed :
    (name value : List ℕ) (p : Ptr) (m : Mem)
    → Holds m p (value ++ 0 ∷ [])
    → Lacks 0 name
    → Lacks 0 value
    → print_pieces
        (padded (length name) (bs name).ptr
          ∷ text (codes ": ")
          ∷ padded (length value) p
          ∷ text crlf
          ∷ [])
        m
      ≡ ok (field_text name value) m
unfolding print_pieces
field_printed name value p m h ln lv =
    let none_left : length name - length name ≡ 0 = omega arith in
    let none_left' : length value - length value ≡ 0 = omega arith in
    rw (c_string-Holds name (bs-Holds name) ln, c_string-Holds value h lv, none_left, none_left')
      refl

freed-Page : {m : Mem} {a : ℕ} {s : List ℕ} (b n : ℕ) → a ≢ b → Page m a s → Page (freed b n m) a s
freed-Page b n ne page = record {
  bytes = page.bytes;
  holds = ground (arith, page.holds);
  size = page.size;
  stands = page.stands;
}

-- A response with one header field, and the object with its value, which ends in a NUL.
pub record OneField (m : Mem) (raw : HttpRawResponse) (name value : List ℕ) (b : ℕ) (bytes : List ℕ)
    : Type 0 where
  pub one : raw.headers ≡ 1
  pub name_is : get_elem? raw.header_name 0 ≡ some (bs name)
  pub value_is : get_elem? raw.header_val 0 ≡ some (view (at_heap b 0) (length value))
  pub stored : Stored m b bytes
  pub stands : StandsAt bytes 0 (value ++ 0 ∷ [])
  pub name_plain : Lacks 0 name
  pub value_plain : Lacks 0 value
  pub short : length name + length value ≤ 3000

view_at_found :
    (xs : List Bytes) (i : ℕ) (x : Bytes) (m : Mem)
    → get_elem? xs i ≡ some x
    → view_at xs i m ≡ ok x m
unfolding view_at
view_at_found xs i x m e = rw (view_at, e) refl

-- The field is printed behind a page's text, and the object of its value is freed.
print_headers-one :
    {m m' : Mem} {raw : HttpRawResponse} {name value : List ℕ} {b : ℕ} {bytes : List ℕ} {a : ℕ}
    {s : List ℕ} (n k : ℕ) (first : Bytes)
    → n ≡ 1
    → OneField m raw name value b bytes
    → Stored m' b bytes
    → a ≢ b
    → Page m' a s
    → k ≡ length s
    → k + length (field_text name value) < 4096
    → (m'' : Mem) × (first' : Bytes) × (print_headers n raw 0
          (record { first = first; second = rest_from a k })
          m'
        ≡ ok
            (record { first = first'; second = rest_from a (k + length (field_text name value)) })
            m'')
      × Page m'' a (s ++ field_text name value)
unfolding print_headers
print_headers-one {m' = m'} {raw} {name} {value} {b} {bytes} {a} n k first one f st ne page is
      small =
    let line = field_text name value in
    let pieces =
      padded (length name) (bs name).ptr
      ∷ text (codes ": ")
      ∷ padded (length value) (at_heap b 0)
      ∷ text crlf
      ∷ [] in
    let holds = (StandsAt-Views st f.stands).holds in
    let (cs, ran, size, page') =
      bprintf-written k (k + length line) line pieces page is refl
        (field_printed name value (at_heap b 0) m' holds f.name_plain f.value_plain) small in
    let m1 = written m' a cs in
    let st1 = written-Stored a cs (λ e. ne (sym e)) st in
    (
      freed b (length bytes) m1,
      view (at_heap a k) (length line),
      rw
          (
            one,
            view_at_found raw.header_name 0 (bs name) m' f.name_is,
            view_at_found raw.header_val 0 (view (at_heap b 0) (length value)) m' f.value_is,
            ran,
            bfree-freed m1 b (length value) bytes st1,
          )
          refl,
      freed-Page b (length bytes) ne page',
    )

-- The whole header
abbrev pub field_header : HttpRawResponse → List ℕ → List ℕ → List ℕ
field_header raw name value =
    ((status_text raw.status ++ second_text raw) ++ field_text name value) ++ crlf

pub assemble-field_header :
    {m : Mem} {raw : HttpRawResponse} {name value : List ℕ} {b : ℕ} {bytes : List ℕ}
    → OneField m raw name value b bytes
    → Known raw.status
    → 4096 ≤ m.room
    → (m' : Mem) × (assemble raw m
        ≡ ok
            (record {
              header = view (at_heap m.next 0) (length (field_header raw name value));
              payload = raw.payload;
            })
            m')
      × Holds m' (at_heap m.next 0) (field_header raw name value)
unfolding assemble
assemble-field_header {m} {raw} {name} {value} {b} f known room =
    let first = status_text raw.status in
    let second = second_text raw in
    let line = field_text name value in
    let k : ℕ = length first in
    let k' : ℕ = length first + length second in
    let k'' : ℕ = k' + length line in
    let size' = length-append first second in
    let size'' = length-append (first ++ second) line in
    let line_size = length-append name (codes ": " ++ (value ++ crlf)) in
    let line_size' = length-append value crlf in
    let small = status_text-le raw.status in
    let small' = second_text-le raw in
    let (cs₁, ran₁, size₁, page₁) =
      bprintf-written 0 k first (named_line raw.status) (allocated-Page m) refl (omega arith)
        (status_printed raw.status (allocated 4096 m)) (omega arith) in
    let m₁ = written (allocated 4096 m) m.next cs₁ in
    let (cs₂, ran₂, size₂, page₂) =
      bprintf-written k k' second (second_line raw) page₁ refl refl (second_printed raw m₁)
        (omega arith) in
    let m₂ = written m₁ m.next cs₂ in
    let ne : b ≢ m.next = omega (arith, f.stored.older) in
    let st₂ =
      written-Stored m.next cs₂ ne
        (written-Stored m.next cs₁ ne (allocated-Stored 4096 f.stored)) in
    let (m₃, first₃, ran₃, page₃) =
      print_headers-one raw.headers k' (view (at_heap m.next k) (length second)) f.one f st₂
        (λ e. ne (sym e)) page₂ (omega (arith, size'))
        (omega (arith, line_size, line_size', f.short)) in
    let (cs₄, ran₄, size₄, page₄) =
      bprintf-written k'' (k'' + 2) crlf (text crlf ∷ []) page₃ (omega (arith, size', size'')) refl
        (crlf_printed m₃) (omega (arith, line_size, line_size', f.short)) in
    (
      written m₃ m.next cs₄,
      rw (balloc-allocated 4096 m room, known (allocated 4096 m), ran₁, ran₂, ran₃, ran₄)
          (ap
            (λ n.
              ok (record { header = view (at_heap m.next 0) n; payload = raw.payload })
                (written m₃ m.next cs₄))
            (omega (arith, size', size'', length-append ((first ++ second) ++ line) crlf))),
      Page-Holds page₄,
    )
