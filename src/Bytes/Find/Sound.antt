-- ===== src/Bytes/Find/Sound.antt =====
-- src/bytes.c: what `bfind` finds is an occurrence, and when it finds one.
use mathlib.Core.List.{append_assoc}
use sleepytext.Prelude.{
  ℕ, ◌+◌, ◌-◌, ◌≤◌, ◌≡◌, ◌⊎◌, refl, ap, ◌∙◌, some, List, [], ◌∷◌, ◌++◌, inl, inr, ◌==◌, length,
  length-append, Bool-cases, Option-cases, arith,
}
use sleepytext.Prelude.Words.{int_max, sub64, add64}
use sleepytext.Memory.{Mem, ok}
use sleepytext.Memory.Holds.{Holds-append, +p-+p}
use sleepytext.Bytes.{Bytes, BFound, not_found, found_at, bfind}
use sleepytext.Bytes.Views.{Views}
use sleepytext.Bytes.Find.{scan, result, bfind-scan}

-- The three views hold `before`, the pattern and `after`.
pub record Parts (m : Mem) (f : BFound) (b ws a : List ℕ) : Type 0 where
  pub before : Views m f.before b
  pub found : Views m f.found ws
  pub after : Views m f.after a

-- The pattern `ws` stands in the text and its last byte is byte `e`.
pub record Occurs (ws text : List ℕ) (e : ℕ) : Type 0 where
  pub b : List ℕ
  pub a : List ℕ
  pub text_is : text ≡ b ++ (ws ++ a)
  pub ends : e + 1 ≡ length b + length ws

-- The loop has read `f₀ ++ pre`, and the pattern is `pre ++ r`.
scan-Occurs :
    (ws r xs f₀ pre : List ℕ) (i e : ℕ)
    → ws ≡ pre ++ r
    → i ≡ length f₀ + length pre
    → scan ws r xs i ≡ some e
    → Occurs ws (f₀ ++ (pre ++ xs)) e
unfolding scan
scan-Occurs ws [] [] f₀ pre i e s k h = cc
scan-Occurs ws (w ∷ []) [] f₀ pre i e s k h = cc
scan-Occurs ws (w ∷ v ∷ r) [] f₀ pre i e s k h = cc
scan-Occurs ws [] (x ∷ xs) f₀ pre i e s k h = cc
scan-Occurs ws (w ∷ []) (x ∷ xs) f₀ pre i e s k h = elim (Bool-cases (x == w)) [
  | inl hit ↦
      let x_is : x ≡ w = ground arith in
      record {
        b = f₀;
        a = xs;
        text_is = rw (s, x_is, append_assoc);
        ends = rw (s, length-append) (ground (arith, rw hit at h));
      }
  | inr miss ↦
      rw (← append_assoc pre (x ∷ []) xs, ← append_assoc f₀ (pre ++ x ∷ []) xs)
        (scan-Occurs ws ws xs (f₀ ++ (pre ++ x ∷ [])) [] (i + 1) e refl
          (rw (length-append, length-append) (omega arith)) (rw miss at h))
]
scan-Occurs ws (w ∷ v ∷ r) (x ∷ xs) f₀ pre i e s k h = elim (Bool-cases (x == w)) [
  | inl hit ↦
      let x_is : x ≡ w = ground arith in
      rw (← append_assoc pre (x ∷ []) xs) (
        scan-Occurs ws (v ∷ r) xs f₀ (pre ++ x ∷ []) (i + 1) e (rw (s, x_is, append_assoc))
          (rw length-append (omega arith)) (rw hit at h))
  | inr miss ↦
      rw (← append_assoc pre (x ∷ []) xs, ← append_assoc f₀ (pre ++ x ∷ []) xs)
        (scan-Occurs ws ws xs (f₀ ++ (pre ++ x ∷ [])) [] (i + 1) e refl
          (rw (length-append, length-append) (omega arith)) (rw miss at h))
]

-- The arithmetic of the three views does not wrap.
pub found_at-Parts :
    {m : Mem} {inp what : Bytes} (b ws a : List ℕ) (e : ℕ)
    → Views m inp (b ++ (ws ++ a))
    → Views m what ws
    → length (b ++ (ws ++ a)) ≤ int_max
    → e + 1 ≡ length b + length ws
    → Parts m (found_at inp what e) b ws a
unfolding sub64 add64
found_at-Parts {m} {inp} {what} b ws a e vi vw le ends =
    let (hb, hr) = Holds-append b vi.holds in
    let (hw, ha) = Holds-append ws hr in
    let total : length (b ++ (ws ++ a)) ≡ length b + length ws + length a =
      rw (length-append, length-append) (omega arith) in
    let at_found : e + 1 - what.len ≡ length b = omega (arith, vw.len_is) in
    record {
      before = record { holds = hb; len_is = omega (arith, vw.len_is) };
      found = record { holds = rw at_found hw; len_is = vw.len_is };
      after = record {
        holds = rw ends (rw (+p-+p inp.ptr (length b) (length ws)) at ha);
        len_is = omega (arith, vi.len_is);
      };
    }

-- The result of `bfind`: either it reports nothing, or the text is what stands before the match,
-- the pattern, and what stands after it, and the three views hold these.
pub record Splits (m : Mem) (f : BFound) (text ws : List ℕ) : Type 0 where
  pub b : List ℕ
  pub a : List ℕ
  pub text_is : text ≡ b ++ (ws ++ a)
  pub parts : Parts m f b ws a

module _ {m : Mem} {inp what : Bytes} {w : ℕ} {ws : List ℕ} where
  found-Splits :
      {xs : List ℕ} {e : ℕ}
      → Views m inp xs
      → Views m what (w ∷ ws)
      → length xs ≤ int_max
      → Occurs (w ∷ ws) xs e
      → Splits m (found_at inp what e) xs (w ∷ ws)
  found-Splits {e} vi vw le o = record {
    b = o.b;
    a = o.a;
    text_is = o.text_is;
    parts = found_at-Parts o.b (w ∷ ws) o.a e (rw o.text_is at vi) vw (rw o.text_is at le) o.ends;
  }

  -- `bfind` with a pattern that is not empty, on a text of at most 2^31 - 1 bytes, runs to its end
  -- with the memory unchanged. It returns the whole text and two empty views, or an occurrence of
  -- the pattern: the text is the bytes before it, the pattern and the bytes after it, and the three
  -- views of the result hold these.
  pub bfind_sound :
      {xs : List ℕ}
      → Views m inp xs
      → Views m what (w ∷ ws)
      → length xs ≤ int_max
      → (f : BFound) × (bfind inp what m ≡ ok f m) × ((f ≡ not_found inp) ⊎ Splits m f xs (w ∷ ws))
  bfind_sound {xs} vi vw le = elim (Option-cases (scan (w ∷ ws) (w ∷ ws) xs 0)) [
    | inl none_found ↦ (
      not_found inp,
      bfind-scan vi vw le ∙ ap (λ o. ok (result inp what o) m) none_found,
      inl refl,
    )
    | inr (e, at_e) ↦ (
      found_at inp what e,
      bfind-scan vi vw le ∙ ap (λ o. ok (result inp what o) m) at_e,
      inr (found-Splits vi vw le (scan-Occurs (w ∷ ws) (w ∷ ws) xs [] [] 0 e refl refl at_e)),
    )
  ]
