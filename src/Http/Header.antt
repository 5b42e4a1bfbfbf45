-- ===== src/Http/Header.antt =====
-- src/http.c: the search for the end of a header of lines.
use mathlib.Core.List.{append_assoc}
use sleepytext.Prelude.{
  ℕ, ◌+◌, ◌≡◌, ◌≢◌, refl, ap, ◌∙◌, some, List, [], ◌∷◌, ◌++◌, length, length-append, arith,
}
use sleepytext.Bytes.Find.{scan}
use sleepytext.Bytes.Find.First.{Lacks, scan_hit, scan_miss, scan_skip}
use sleepytext.Bytes.Number.Decimal.{decimal, digit_step}
use sleepytext.Http.{crlf, crlf_crlf}

-- The lines of a header, with CR and LF between them.
abbrev pub join_lines : List ℕ → List (List ℕ) → List ℕ
join_lines line [] = line
join_lines line (next ∷ lines) = line ++ (crlf ++ join_lines next lines)

-- A line is not empty and holds no CR.
abbrev pub IsLine : List ℕ → Type 0
IsLine line = (line ≢ []) × Lacks b'\r' line

abbrev pub AreLines : List ℕ → List (List ℕ) → Type 0
AreLines line [] = IsLine line
AreLines line (next ∷ lines) = IsLine line × AreLines next lines

join_lines_head :
    (line : List ℕ) (lines : List (List ℕ))
    → AreLines line lines
    → (x : ℕ) × (xs : List ℕ) × (join_lines line lines ≡ x ∷ xs) × (x ≢ b'\r')
join_lines_head [] [] l = absurd (l.0 refl)
join_lines_head [] (next ∷ lines) l = absurd (l.0.0 refl)
join_lines_head (x ∷ line) [] l = (x, line, refl, l.1.0)
join_lines_head (x ∷ line) (next ∷ lines) l =
    (x, line ++ (crlf ++ join_lines next lines), refl, l.0.1.0)

j_is : (i j : ℕ) → i + 2 ≡ j → i + 1 + 1 ≡ j
j_is i j e = omega arith

-- A line end before a line is a partial match that is given up.
scan_line_end :
    (x : ℕ) (xs text : List ℕ) (i j : ℕ)
    → text ≡ x ∷ xs
    → x ≢ b'\r'
    → i + 2 ≡ j
    → scan crlf_crlf crlf_crlf (crlf ++ text) i ≡ scan crlf_crlf crlf_crlf text j
unfolding scan
scan_line_end x xs text i j head ne e = rw head (
    ground (arith, scan_miss b'\r' (b'\n' ∷ b'\r' ∷ b'\n' ∷ []) x xs (i + 1 + 1) ne)
    ∙ ap (scan crlf_crlf crlf_crlf (x ∷ xs)) (j_is i j e))

scan_lines :
    (line : List ℕ) (lines : List (List ℕ)) (xs : List ℕ) (i j : ℕ)
    → AreLines line lines
    → i + length (join_lines line lines) ≡ j
    → scan crlf_crlf crlf_crlf (join_lines line lines ++ xs) i ≡ scan crlf_crlf crlf_crlf xs j
scan_lines line [] xs i j l e = scan_skip b'\r' (b'\n' ∷ b'\r' ∷ b'\n' ∷ []) line xs i j l.1 e
scan_lines line (next ∷ lines) xs i j l e =
    let k : ℕ = i + length line in
    let (x, ys, head, ne) = join_lines_head next lines l.1 in
    let size = length-append line (crlf ++ join_lines next lines) in
    rw (append_assoc line (crlf ++ join_lines next lines) xs) (
      scan_skip b'\r' (b'\n' ∷ b'\r' ∷ b'\n' ∷ []) line _ i k l.0.1 refl
      ∙ scan_line_end x (ys ++ xs) _ k (k + 2) (ap (λ t. t ++ xs) head) ne refl
      ∙ scan_lines next lines xs (k + 2) j l.1 (omega arith))

-- The terminator of a header of lines is found where it stands.
pub scan_header :
    (line : List ℕ) (lines : List (List ℕ)) (payload : List ℕ)
    → AreLines line lines
    → scan crlf_crlf crlf_crlf (join_lines line lines ++ (crlf_crlf ++ payload)) 0
      ≡ some (length (join_lines line lines) + 3)
scan_header line lines payload l =
    let n = length (join_lines line lines) in
    scan_lines line lines (crlf_crlf ++ payload) 0 n l (omega arith)
    ∙ scan_hit crlf_crlf b'\r' (b'\n' ∷ b'\r' ∷ b'\n' ∷ []) payload n (n + 3) refl

pub decimal-Lacks : (acc : ℕ) (xs : List ℕ) (v : ℕ) → decimal acc xs ≡ some v → Lacks b'\r' xs
unfolding decimal
decimal-Lacks acc [] v h = tt
decimal-Lacks acc (x ∷ xs) v h = ground (arith, decimal-Lacks (digit_step acc x) xs v)
