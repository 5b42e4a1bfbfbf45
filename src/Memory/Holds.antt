-- ===== src/Memory/Holds.antt =====
-- What the memory holds at a pointer, as a list of bytes.
use sleepytext.Prelude.{
  ℕ, zero, suc, ◌+◌, ◌≡◌, List, [], ◌∷◌, ◌++◌, some, arith, take, drop, length,
}
use sleepytext.Memory.{Mem, Ptr, ◌+p◌, peek, load, ok}

-- The bytes from `p` on begin with `xs`.
pub data Holds (m : Mem) : Ptr → List ℕ → Type 0 where
  nil : {p : Ptr} → Holds m p []
  cons :
      {p : Ptr} {x : ℕ} {xs : List ℕ} → peek m p ≡ some x → Holds m (p +p 1) xs → Holds m p (x ∷ xs)

pub +p-+p : (p : Ptr) (a b : ℕ) → p +p a +p b ≡ p +p (a + b)
+p-+p p a b = ground arith

pub +p_zero : (p : Ptr) → p +p 0 ≡ p
+p_zero p = ground arith

pub +p_suc : (p : Ptr) (a : ℕ) → p +p 1 +p a ≡ p +p suc a
+p_suc p a = ground arith

module _ {m : Mem} where
  pub Holds-load : {p : Ptr} {x : ℕ} {xs : List ℕ} → Holds m p (x ∷ xs) → load p m ≡ ok x m
  unfolding load
  Holds-load (cons e h) = ground arith

  pub Holds-drop : (n : ℕ) {p : Ptr} {xs : List ℕ} → Holds m p xs → Holds m (p +p n) (drop n xs)
  Holds-drop zero {p} h = rw (+p_zero p) h
  Holds-drop (suc n) nil = nil
  Holds-drop (suc n) {p} (cons e h) = rw (← +p_suc p n) (Holds-drop n h)

  pub Holds-take : (n : ℕ) {p : Ptr} {xs : List ℕ} → Holds m p xs → Holds m p (take n xs)
  Holds-take zero h = nil
  Holds-take (suc n) nil = nil
  Holds-take (suc n) (cons e h) = cons e (Holds-take n h)

  pub Holds-tail : {p : Ptr} {x : ℕ} {xs : List ℕ} → Holds m p (x ∷ xs) → Holds m (p +p 1) xs
  Holds-tail (cons e h) = h

  pub Holds-append :
      (xs : List ℕ) {ys : List ℕ} {p : Ptr}
      → Holds m p (xs ++ ys)
      → Holds m p xs × Holds m (p +p length xs) ys
  Holds-append [] {p} h = (nil, rw (+p_zero p) h)
  Holds-append (x ∷ xs) {p} (cons e h) =
      let (front, back) = Holds-append xs h in (cons e front, rw (← +p_suc p (length xs)) back)
