-- ===== src/Bytes/Find/First.antt =====
-- src/bytes.c: `bfind` finds a match that no earlier byte could have begun. It gives up a partial
-- match at the byte that breaks it without looking whether that byte begins a match.
use mathlib.Core.List.{append_assoc}
use sleepytext.Prelude.{
  length-append, ℕ, ◌+◌, ◌≤◌, ◌≡◌, ◌≢◌, refl, sym, ap, ◌∙◌, Option, none, some, List, [], ◌∷◌, ◌++◌,
  length, arith,
}
use sleepytext.Prelude.Words.{int_max}
use sleepytext.Memory.{Ptr, Mem, Outcome, fault, out_of_fuel, ok}
use sleepytext.Bytes.{Bytes, BFound, not_found, found_at, bfind}
use sleepytext.Bytes.Views.{Views}
use sleepytext.Bytes.Find.{scan, result, bfind-scan}
use sleepytext.Bytes.Find.Sound.{Parts, found_at-Parts}

-- Byte `c` does not stand in the text.
abbrev pub Lacks : ℕ → List ℕ → Type 0
Lacks c [] = Unit
Lacks c (x ∷ xs) = (x ≢ c) × Lacks c xs

pub scan_miss :
    (w : ℕ) (ws : List ℕ) (x : ℕ) (xs : List ℕ) (i : ℕ)
    → x ≢ w
    → scan (w ∷ ws) (w ∷ ws) (x ∷ xs) i ≡ scan (w ∷ ws) (w ∷ ws) xs (i + 1)
unfolding scan
scan_miss w [] x xs i ne = ground arith
scan_miss w (v ∷ ws) x xs i ne = ground arith

pub scan_skip :
    (w : ℕ) (ws pre xs : List ℕ) (i j : ℕ)
    → Lacks w pre
    → i + length pre ≡ j
    → scan (w ∷ ws) (w ∷ ws) (pre ++ xs) i ≡ scan (w ∷ ws) (w ∷ ws) xs j
scan_skip w ws [] xs i j l e = ap (scan (w ∷ ws) (w ∷ ws) xs) (omega arith)
scan_skip w ws (x ∷ pre) xs i j l e =
    scan_miss w ws x (pre ++ xs) i l.0 ∙ scan_skip w ws pre xs (i + 1) j l.1 (omega arith)

pub scan_hit :
    (ws : List ℕ) (w : ℕ) (r xs : List ℕ) (i j : ℕ)
    → i + length r ≡ j
    → scan ws (w ∷ r) ((w ∷ r) ++ xs) i ≡ some j
unfolding scan
scan_hit ws w [] xs i j e = ground arith
scan_hit ws w (v ∷ r) xs i j e = ground (arith, scan_hit ws v r xs (i + 1) j)

scan_lacking : (w : ℕ) (ws xs : List ℕ) (i : ℕ) → Lacks w xs → scan (w ∷ ws) (w ∷ ws) xs i ≡ none
scan_lacking w ws [] i l = unfold scan in refl
scan_lacking w ws (x ∷ xs) i l = scan_miss w ws x xs i l.0 ∙ scan_lacking w ws xs (i + 1) l.1

module _ {m : Mem} {inp what : Bytes} {w : ℕ} {ws : List ℕ} where
  -- Where the text is `b`, the pattern and `a`, and the pattern's first byte does not stand in `b`,
  -- `bfind` returns views that hold these three; the text has at most 2^31 - 1 bytes.
  pub bfind_first :
      (b a : List ℕ)
      → Views m inp (b ++ ((w ∷ ws) ++ a))
      → Views m what (w ∷ ws)
      → length (b ++ ((w ∷ ws) ++ a)) ≤ int_max
      → Lacks w b
      → (f : BFound) × (bfind inp what m ≡ ok f m) × Parts m f b (w ∷ ws) a
  bfind_first b a vi vw le lacks =
      let e = length b + length ws in
      (
        found_at inp what e,
        bfind-scan vi vw le
            ∙ ap (λ o. ok (result inp what o) m)
                (scan_skip w ws b _ 0 (length b) lacks (omega arith)
                  ∙ scan_hit (w ∷ ws) w ws a (length b) e refl),
        found_at-Parts b (w ∷ ws) a e vi vw le (omega arith),
      )

  -- Where the pattern's first byte does not stand in the text, `bfind` finds nothing.
  pub bfind_lacking :
      {xs : List ℕ}
      → Views m inp xs
      → Views m what (w ∷ ws)
      → length xs ≤ int_max
      → Lacks w xs
      → bfind inp what m ≡ ok (not_found inp) m
  bfind_lacking {xs} vi vw le lacks =
      bfind-scan vi vw le ∙ ap (λ o. ok (result inp what o) m) (scan_lacking w ws xs 0 lacks)

-- What stands before the match begins where the text does.
pub bfind_starts :
    {m : Mem} {inp what : Bytes} {xs : List ℕ} {w : ℕ} {ws : List ℕ} {f : BFound}
    → Views m inp xs
    → Views m what (w ∷ ws)
    → length xs ≤ int_max
    → bfind inp what m ≡ ok f m
    → f.before.ptr ≡ inp.ptr
bfind_starts {m} {inp} {what} {xs} {w} {ws} {f} vi vw le found =
    ap (start f) (sym found ∙ bfind-scan vi vw le) ∙ starts (scan (w ∷ ws) (w ∷ ws) xs 0)
  where
    start : BFound → Outcome BFound → Ptr
    start g (ok h n) = h.before.ptr
    start g fault = g.before.ptr
    start g out_of_fuel = g.before.ptr

    starts : (o : Option ℕ) → (result inp what o).before.ptr ≡ inp.ptr
    starts none = refl
    starts (some i) = refl

scan_overlap :
    (x y : ℕ) (a : List ℕ) (i : ℕ)
    → x ≢ y
    → Lacks x a
    → scan (x ∷ y ∷ []) (x ∷ y ∷ []) (x ∷ x ∷ y ∷ a) i ≡ none
unfolding scan
scan_overlap x y a i ne lacks =
    let rest = scan_lacking x (y ∷ []) (y ∷ a) (i + 1 + 1) ((λ e. ne (sym e)), lacks) in
    ground (arith, rest)

-- A two-byte pattern of different bytes behind one more copy of its first byte is missed, although
-- it stands in the text, where no other copy of its first byte does.
pub bfind_overlap :
    {m : Mem} {inp what : Bytes} (x y : ℕ) (b a : List ℕ)
    → Views m inp (b ++ (x ∷ x ∷ y ∷ a))
    → Views m what (x ∷ y ∷ [])
    → length (b ++ (x ∷ x ∷ y ∷ a)) ≤ int_max
    → x ≢ y
    → Lacks x b
    → Lacks x a
    → bfind inp what m ≡ ok (not_found inp) m
bfind_overlap {m} {inp} {what} x y b a vi vw le ne lb la =
    bfind-scan vi vw le
    ∙ ap (λ o. ok (result inp what o) m)
        (scan_skip x (y ∷ []) b _ 0 (length b) lb (omega arith)
          ∙ scan_overlap x y a (length b) ne la)

-- `bfind` where the scan is known.
pub bfind_at :
    {m : Mem} {inp what : Bytes} (b : List ℕ) (w : ℕ) (ws a : List ℕ)
    → Views m inp (b ++ ((w ∷ ws) ++ a))
    → Views m what (w ∷ ws)
    → length (b ++ ((w ∷ ws) ++ a)) ≤ int_max
    → scan (w ∷ ws) (w ∷ ws) (b ++ ((w ∷ ws) ++ a)) 0 ≡ some (length b + length ws)
    → (f : BFound) × (bfind inp what m ≡ ok f m) × Parts m f b (w ∷ ws) a
bfind_at {m} {inp} {what} b w ws a vi vw le e = (
  found_at inp what (length b + length ws),
  bfind-scan vi vw le ∙ ap (λ o. ok (result inp what o) m) e,
  found_at-Parts b (w ∷ ws) a (length b + length ws) vi vw le (omega arith),
)

-- `bfind` where the scan finds nothing.
pub bfind-none :
    {m : Mem} {inp what : Bytes} {xs : List ℕ} (w : ℕ) (ws : List ℕ)
    → Views m inp xs
    → Views m what (w ∷ ws)
    → length xs ≤ int_max
    → scan (w ∷ ws) (w ∷ ws) xs 0 ≡ none
    → bfind inp what m ≡ ok (not_found inp) m
bfind-none {m} {inp} {what} w ws vi vw le e =
    bfind-scan vi vw le ∙ ap (λ o. ok (result inp what o) m) e

-- A byte that the pattern does not hold ends any partial match.
pub scan_reset :
    (ws r : List ℕ) (c : ℕ) (xs : List ℕ) (i : ℕ)
    → r ≢ []
    → Lacks c r
    → scan ws r (c ∷ xs) i ≡ scan ws ws xs (i + 1)
unfolding scan
scan_reset ws [] c xs i ne l = absurd (ne refl)
scan_reset ws (w ∷ []) c xs i ne l = ground arith
scan_reset ws (w ∷ v ∷ r) c xs i ne l = ground arith

-- A text in which nothing is found, and that ends in such a byte, is skipped.
pub scan_past :
    (w : ℕ) (ws r b : List ℕ) (c : ℕ) (xs : List ℕ) (i j : ℕ)
    → r ≢ []
    → Lacks c r
    → Lacks c (w ∷ ws)
    → scan (w ∷ ws) r b i ≡ none
    → i + length b + 1 ≡ j
    → scan (w ∷ ws) r (b ++ c ∷ xs) i ≡ scan (w ∷ ws) (w ∷ ws) xs j
unfolding scan
scan_past w ws r [] c xs i j ne l lw h e =
    scan_reset (w ∷ ws) r c xs i ne l ∙ ap (scan (w ∷ ws) (w ∷ ws) xs) (omega arith)
scan_past w ws [] (x ∷ b) c xs i j ne l lw h e = absurd (ne refl)
scan_past w ws (v ∷ []) (x ∷ b) c xs i j ne l lw h e =
    ground (arith, scan_past w ws (w ∷ ws) b c xs (i + 1) j (cc) lw lw)
scan_past w ws (v ∷ u ∷ r) (x ∷ b) c xs i j ne l lw h e = ground (
  arith,
  scan_past w ws (w ∷ ws) b c xs (i + 1) j (cc) lw lw,
  scan_past w ws (u ∷ r) b c xs (i + 1) j (cc) l.1 lw,
)

-- Where nothing is found in `b`, and a byte that the pattern does not hold ends `b`, an occurrence
-- right behind that byte is found.
pub bfind_past :
    {m : Mem} {inp what : Bytes} (b : List ℕ) (c w : ℕ) (ws a : List ℕ)
    → Views m inp (b ++ c ∷ ((w ∷ ws) ++ a))
    → Views m what (w ∷ ws)
    → length (b ++ c ∷ ((w ∷ ws) ++ a)) ≤ int_max
    → scan (w ∷ ws) (w ∷ ws) b 0 ≡ none
    → Lacks c (w ∷ ws)
    → (f : BFound) × (bfind inp what m ≡ ok f m) × Parts m f (b ++ c ∷ []) (w ∷ ws) a
bfind_past {m} {inp} {what} b c w ws a vi vw le missing lacks =
    let front = b ++ c ∷ [] in
    let whole = append_assoc b (c ∷ []) ((w ∷ ws) ++ a) in
    let size = length-append b (c ∷ []) in
    bfind_at {m = m} {inp = inp} {what = what} front w ws a (rw whole vi) vw (rw whole le) (
      rw whole (
        scan_past w ws (w ∷ ws) b c ((w ∷ ws) ++ a) 0 (length front) (cc) lacks lacks missing
          (omega arith)
        ∙ scan_hit (w ∷ ws) w ws a (length front) (length front + length ws) refl))

pub Lacks-append : (c : ℕ) (xs ys : List ℕ) → Lacks c xs → Lacks c ys → Lacks c (xs ++ ys)
Lacks-append c [] ys l k = k
Lacks-append c (x ∷ xs) ys l k = (l.0, Lacks-append c xs ys l.1 k)
