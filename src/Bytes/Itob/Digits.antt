-- ===== src/Bytes/Itob/Digits.antt =====
-- src/bytes.c: the first loop of `itob` writes the digits, the lowest first.
use mathlib.Core.List.{append_assoc}
use sleepytext.Prelude.{
  ℕ, zero, suc, ◌+◌, ◌/◌, ◌%◌, ◌≡◌, sym, ap, ◌∙◌, false, some, List, [], ◌∷◌, ◌++◌, ltb, length,
  length-append, if◌then◌else◌, inl, inr, Bool-cases, arith,
}
use sleepytext.Memory.{Mem, ok}
use sleepytext.Memory.Write.{at_heap, written, written_at, written_self, written-written}
use sleepytext.Bytes.{view}
use sleepytext.Bytes.Itob.{itob_digits}
use sleepytext.Bytes.Itob.Turned.{store_at}

-- The digits of `n`, the lowest first.
unfoldable pub low_digits : ℕ → ℕ → List ℕ
low_digits zero n = []
low_digits (suc fuel) n =
    let rest = low_digits fuel (n / 10) in if ltb 0 n then (n % 10 + b'0') ∷ rest else []

-- `n` has at most that many digits.
abbrev pub HasDigits : ℕ → ℕ → Type 0
HasDigits zero n = n ≡ 0
HasDigits (suc fuel) n = HasDigits fuel (n / 10)

stopped :
    (m : Mem) (a i : ℕ) (cs : List ℕ) → m.objects a ≡ some cs → ok i m ≡ ok (i + 0) (written m a cs)
stopped m a i cs o = ap (λ k. ok k m) (omega arith) ∙ ap (ok (i + 0)) (written_self m a cs o)

pub itob_digits-low_digits :
    (fuel n : ℕ) (pre junk post : List ℕ) (m : Mem) (a off i len : ℕ)
    → m.objects a ≡ some (pre ++ (junk ++ post))
    → length junk ≡ length (low_digits fuel n)
    → off + i ≡ length pre
    → HasDigits fuel n
    → itob_digits (suc fuel) (view (at_heap a off) len) n i m
      ≡ ok (i + length (low_digits fuel n)) (written m a (pre ++ (low_digits fuel n ++ post)))
unfolding itob_digits low_digits
itob_digits-low_digits zero n pre [] post m a off i len o size e d =
    let none_left : ltb 0 n ≡ false = ground arith in rw none_left (stopped m a i (pre ++ post) o)
itob_digits-low_digits zero n pre (x ∷ junk) post m a off i len o size e d = absurd (omega arith)
itob_digits-low_digits (suc fuel) n pre [] post m a off i len o size e d =
    elim (Bool-cases (ltb 0 n)) [
      | inl more ↦ let size' = rw more at size in absurd (omega arith)
      | inr none_left ↦ rw none_left (stopped m a i (pre ++ post) o)
    ]
itob_digits-low_digits (suc fuel) n pre (x ∷ junk) post m a off i len o size e d =
    let c : ℕ = n % 10 + b'0' in
    let m₁ : Mem = written m a (pre ++ c ∷ (junk ++ post)) in
    elim (Bool-cases (ltb 0 n)) [
      | inl more ↦
          let low = low_digits fuel (n / 10) in
          let size' = rw more at size in
          let ih =
            itob_digits-low_digits fuel (n / 10) (pre ++ c ∷ []) junk post m₁ a off (i + 1) len
              (written_at m a (pre ++ c ∷ (junk ++ post))
                ∙ ap some (sym (append_assoc pre (c ∷ []) (junk ++ post))))
              (omega (arith, size')) (omega (arith, length-append pre (c ∷ []))) d in
          rw (more, store_at m a (off + i) c x pre (junk ++ post) o e)
            (ih
              ∙ ap (ok (i + 1 + length low)) (written-written m a _ _)
              ∙ ap (λ k. ok k (written m a ((pre ++ c ∷ []) ++ (low ++ post)))) (omega arith)
              ∙ ap (λ cs. ok (i + suc (length low)) (written m a cs))
                  (append_assoc pre (c ∷ []) (low ++ post)))
      | inr none_left ↦ let size' = rw none_left at size in absurd (omega arith)
    ]
