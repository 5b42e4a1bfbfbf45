-- ===== src/Http/Param.antt =====
-- src/http.c: `http_extract_param` returns the value of a header.
use mathlib.Core.List.{append-nil}
use sleepytext.Prelude.{ℕ, ◌≤◌, ◌≡◌, refl, none, List, [], ◌∷◌, ◌++◌, length, length-append, arith}
use sleepytext.Prelude.Words.{int_max}
use sleepytext.Memory.{Mem, ok}
use sleepytext.Bytes.{Bytes, bs, bvoid, bfind, bslice}
use sleepytext.Bytes.Views.{Views, bs-Views}
use sleepytext.Bytes.Slice.{bslice-drop}
use sleepytext.Bytes.Find.{scan}
use sleepytext.Bytes.Find.First.{Lacks, bfind_past, bfind-none, bfind_first, bfind_lacking}
use sleepytext.Http.{crlf, http_extract_param}

-- The field's line, from the name on: two bytes, `: `, stand before the value.
abbrev pub field_line : List ℕ → ℕ → ℕ → List ℕ → List ℕ → List ℕ
field_line name c s value behind = name ++ (c ∷ s ∷ (value ++ behind))

module _ {m : Mem} {header field : Bytes} (w : ℕ) (ws b value : List ℕ) (c s : ℕ) where
  -- Where the field name is not found in the lines `b`, and the field's line follows them with
  -- another line behind it, `http_extract_param` returns a view of the value, which holds no CR.
  pub http_extract_param_inner :
      (rest : List ℕ)
      → Views m header (b ++ b'\n' ∷ field_line (w ∷ ws) c s value (crlf ++ rest))
      → Views m field (w ∷ ws)
      → length (b ++ b'\n' ∷ field_line (w ∷ ws) c s value (crlf ++ rest)) ≤ int_max
      → scan (w ∷ ws) (w ∷ ws) b 0 ≡ none
      → Lacks b'\n' (w ∷ ws)
      → Lacks b'\r' value
      → (r : Bytes) × (http_extract_param header field m ≡ ok r m) × Views m r value
  unfolding http_extract_param
  http_extract_param_inner rest vh vf le missing inner plain =
      let behind = c ∷ s ∷ (value ++ (crlf ++ rest)) in
      let after_le : length behind ≤ int_max = omega (
        arith,
        length-append b (b'\n' ∷ field_line (w ∷ ws) c s value (crlf ++ rest)),
        length-append ws behind,
      ) in
      let (f, found, parts) = bfind_past b b'\n' w ws behind vh vf le missing inner in
      let (g, found', parts') =
        bfind_first {what = bs crlf} value rest (bslice-drop 2 parts.after after_le) (bs-Views crlf)
          (omega arith) plain in
      (g.before, rw (found, found') refl, parts'.before)

  -- The same where the field's line is the last one of the header.
  pub http_extract_param_last :
      Views m header (b ++ b'\n' ∷ field_line (w ∷ ws) c s value [])
      → Views m field (w ∷ ws)
      → length (b ++ b'\n' ∷ field_line (w ∷ ws) c s value []) ≤ int_max
      → scan (w ∷ ws) (w ∷ ws) b 0 ≡ none
      → Lacks b'\n' (w ∷ ws)
      → Lacks b'\r' value
      → (r : Bytes) × (http_extract_param header field m ≡ ok r m) × Views m r value
  unfolding http_extract_param
  http_extract_param_last vh vf le missing inner plain =
      let behind = c ∷ s ∷ (value ++ []) in
      let after_le : length behind ≤ int_max = omega (
        arith,
        length-append b (b'\n' ∷ field_line (w ∷ ws) c s value []),
        length-append ws behind,
      ) in
      let (f, found, parts) = bfind_past b b'\n' w ws behind vh vf le missing inner in
      let value_le : length value ≤ int_max = omega (arith, length-append value []) in
      let slice = rw (append-nil value) at (bslice-drop 2 parts.after after_le) in
      (
        bslice f.after 2 0,
        rw (found, bfind_lacking {what = bs crlf} slice (bs-Views crlf) value_le plain) refl,
        slice,
      )

-- A field that is not found has the empty value.
pub http_extract_param_missing :
    {m : Mem} {header field : Bytes} (w : ℕ) (ws : List ℕ) {xs : List ℕ}
    → Views m header xs
    → Views m field (w ∷ ws)
    → length xs ≤ int_max
    → scan (w ∷ ws) (w ∷ ws) xs 0 ≡ none
    → http_extract_param header field m ≡ ok bvoid m
unfolding http_extract_param bfind bslice
http_extract_param_missing w ws vh vf le missing = rw (bfind-none w ws vh vf le missing) refl
