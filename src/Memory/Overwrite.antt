-- ===== src/Memory/Overwrite.antt =====
-- Runs of bytes inside an object, and their replacement.
use sleepytext.Prelude.{
  ℕ, zero, suc, ◌+◌, ◌≤◌, ◌<◌, ◌≡◌, ◌≢◌, refl, ap, ◌∙◌, some, List, [], ◌∷◌, ◌++◌, length,
  get_elem?, set, length-set, arith,
}
use sleepytext.Memory.{Mem, fill}
use sleepytext.Memory.Holds.{Holds}
use sleepytext.Memory.Write.{at_heap, written, peek-written_self}

-- The bytes from position `off` on are replaced by `xs`.
abbrev pub overwrite : List ℕ → ℕ → List ℕ → List ℕ
overwrite cs off [] = cs
overwrite cs off (x ∷ xs) = overwrite (set cs off x) (off + 1) xs

-- The bytes from position `off` on begin with `xs`.
pub data StandsAt (cs : List ℕ) : ℕ → List ℕ → Type 0 where
  nil : {off : ℕ} → StandsAt cs off []
  cons :
      {off x : ℕ} {xs : List ℕ}
      → get_elem? cs off ≡ some x
      → StandsAt cs (off + 1) xs
      → StandsAt cs off (x ∷ xs)

pub length-overwrite :
    (cs : List ℕ) (off : ℕ) (xs : List ℕ) → length (overwrite cs off xs) ≡ length cs
length-overwrite cs off [] = refl
length-overwrite cs off (x ∷ xs) =
    length-overwrite (set cs off x) (off + 1) xs ∙ length-set cs off x

pub get_elem?-set_self : (cs : List ℕ) (i v : ℕ) → i < length cs → get_elem? (set cs i v) i ≡ some v
get_elem?-set_self [] i v h = elim h [ ]
get_elem?-set_self (x ∷ cs) zero v h = refl
get_elem?-set_self (x ∷ cs) (suc i) v h = get_elem?-set_self cs i v (omega arith)

pub get_elem?-set_ne : (cs : List ℕ) (i j v : ℕ) → i ≢ j → get_elem? (set cs i v) j ≡ get_elem? cs j
get_elem?-set_ne [] i j v h = refl
get_elem?-set_ne (x ∷ cs) zero zero v h = absurd (h refl)
get_elem?-set_ne (x ∷ cs) zero (suc j) v h = refl
get_elem?-set_ne (x ∷ cs) (suc i) zero v h = refl
get_elem?-set_ne (x ∷ cs) (suc i) (suc j) v h = get_elem?-set_ne cs i j v (λ e. h (ap suc e))

pub get_elem?-overwrite_below :
    (cs : List ℕ) (off j : ℕ) (xs : List ℕ)
    → j < off
    → get_elem? (overwrite cs off xs) j ≡ get_elem? cs j
get_elem?-overwrite_below cs off j [] h = refl
get_elem?-overwrite_below cs off j (x ∷ xs) h =
    get_elem?-overwrite_below (set cs off x) (off + 1) j xs (omega arith)
    ∙ get_elem?-set_ne cs off j x (omega arith)

pub get_elem?-overwrite_above :
    (cs : List ℕ) (off j : ℕ) (xs : List ℕ)
    → off + length xs ≤ j
    → get_elem? (overwrite cs off xs) j ≡ get_elem? cs j
get_elem?-overwrite_above cs off j [] h = refl
get_elem?-overwrite_above cs off j (x ∷ xs) h =
    get_elem?-overwrite_above (set cs off x) (off + 1) j xs (omega arith)
    ∙ get_elem?-set_ne cs off j x (omega arith)

pub length-fill : (g : ℕ → ℕ) (i n : ℕ) → length (fill g i n) ≡ n
unfolding fill
length-fill g i zero = refl
length-fill g i (suc n) = ap suc (length-fill g (i + 1) n)

pub overwrite-StandsAt :
    (cs : List ℕ) (off : ℕ) (xs : List ℕ)
    → off + length xs ≤ length cs
    → StandsAt (overwrite cs off xs) off xs
overwrite-StandsAt cs off [] h = nil
overwrite-StandsAt cs off (x ∷ xs) h =
    cons
      (get_elem?-overwrite_below (set cs off x) (off + 1) off xs (omega arith)
        ∙ get_elem?-set_self cs off x (omega arith))
      (overwrite-StandsAt (set cs off x) (off + 1) xs (omega (arith, length-set cs off x)))

pub overwrite-append :
    (cs : List ℕ) (off : ℕ) (xs ys : List ℕ)
    → overwrite (overwrite cs off xs) (off + length xs) ys ≡ overwrite cs off (xs ++ ys)
overwrite-append cs off [] ys = ap (λ i. overwrite cs i ys) (omega arith)
overwrite-append cs off (x ∷ xs) ys =
    ap (λ i. overwrite (overwrite (set cs off x) (off + 1) xs) i ys) (omega arith)
    ∙ overwrite-append (set cs off x) (off + 1) xs ys

pub StandsAt-Holds :
    (m : Mem) (a : ℕ) {cs : List ℕ} {off : ℕ} {xs : List ℕ}
    → StandsAt cs off xs
    → Holds (written m a cs) (at_heap a off) xs
StandsAt-Holds m a nil = Holds.nil
StandsAt-Holds m a {cs} {off} (cons e h) =
    Holds.cons (peek-written_self m a off cs ∙ e) (StandsAt-Holds m a h)
