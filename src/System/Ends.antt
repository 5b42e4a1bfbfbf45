-- ===== src/System/Ends.antt =====
-- What the server does outside its memory comes to an end, or stops with a fault, whatever the world
-- answers.
use sleepytext.Prelude.{◌≡◌, refl, Bool, true, false, if◌then◌else◌}
use sleepytext.Memory.{Mem, Action, Outcome, fault, out_of_fuel, ok}
use sleepytext.Memory.Ends.{After, Ends}
use sleepytext.System.{
  Reply, crashed, unfinished, done, Io, continue, ◌>>=◌, return, local, world, outcome,
}

-- A reply that is not unfinished: what it yields has the property `Q`.
abbrev pub Leaves : {W A : Type 0} → (A → Mem → Type 0) → Reply W A → Type 0
Leaves Q crashed = Unit
Leaves Q unfinished = ⊥
Leaves Q (done a m w) = Q a m

pub record IoEnds {W A : Type 0} (m : Mem) (io : Io W A) (Q : A → Mem → Type 0) : Type 0 where
  pub after : (w : W) → Leaves Q (io m w)

module _ {W : Type 0} where
  Leaves-continue :
      {A B : Type 0} (Q : A → Mem → Type 0) (R : B → Mem → Type 0) (rest : A → Io W B)
      (r : Reply W A)
      → Leaves Q r
      → ((a : A) (m : Mem) → Q a m → IoEnds m (rest a) R)
      → Leaves R (continue rest r)
  Leaves-continue Q R rest crashed e k = tt
  Leaves-continue Q R rest unfinished e k = absurd e
  Leaves-continue Q R rest (done a m w) e k = (k a m e).after w

  pub IoEnds-bind :
      {A B : Type 0} {m : Mem} {first : Io W A} {rest : A → Io W B} {Q : A → Mem → Type 0}
      {R : B → Mem → Type 0}
      → IoEnds m first Q
      → ((a : A) (m' : Mem) → Q a m' → IoEnds m' (rest a) R)
      → IoEnds m (first >>= rest) R
  IoEnds-bind {m = m} {first} {rest} {Q} {R} e k = record {
    after = λ w. Leaves-continue Q R rest (first m w) (e.after w) k;
  }

  Leaves-outcome :
      {A : Type 0} (Q : A → Mem → Type 0) (w : W) (o : Outcome A)
      → After Q o
      → Leaves Q (outcome w o)
  Leaves-outcome Q w fault e = tt
  Leaves-outcome Q w out_of_fuel e = e
  Leaves-outcome Q w (ok a m) e = e

  pub IoEnds-local :
      {A : Type 0} {m : Mem} {action : Action A} {Q : A → Mem → Type 0}
      → Ends m action Q
      → IoEnds {W = W} m (local action) Q
  IoEnds-local {m = m} {action} {Q} e = record {
    after = λ w. Leaves-outcome Q w (action m) e.after;
  }

  pub IoEnds-world :
      {A : Type 0} {m : Mem} {call : W → A × W} {Q : A → Mem → Type 0}
      → ((a : A) → Q a m)
      → IoEnds m (world call) Q
  IoEnds-world {call = call} q = record { after = λ w. q (call w).0 }

  pub IoEnds-return :
      {A : Type 0} {m : Mem} {Q : A → Mem → Type 0} (a : A) → Q a m → IoEnds {W = W} m (return a) Q
  IoEnds-return a q = record { after = λ w. q }

  pub IoEnds-if :
      {A : Type 0} {m : Mem} {Q : A → Mem → Type 0} (b : Bool) {x y : Io W A}
      → (b ≡ true → IoEnds m x Q)
      → (b ≡ false → IoEnds m y Q)
      → IoEnds m (if b then x else y) Q
  IoEnds-if true h k = h refl
  IoEnds-if false h k = k refl

  Leaves-weaken :
      {A : Type 0} (Q R : A → Mem → Type 0) (r : Reply W A)
      → Leaves Q r
      → ((a : A) (m : Mem) → Q a m → R a m)
      → Leaves R r
  Leaves-weaken Q R crashed e k = tt
  Leaves-weaken Q R unfinished e k = e
  Leaves-weaken Q R (done a m w) e k = k a m e

  pub IoEnds-weaken :
      {A : Type 0} {m : Mem} {io : Io W A} {Q R : A → Mem → Type 0}
      → IoEnds m io Q
      → ((a : A) (m' : Mem) → Q a m' → R a m')
      → IoEnds m io R
  IoEnds-weaken {m = m} {io} {Q} {R} e k = record {
    after = λ w. Leaves-weaken Q R (io m w) (e.after w) k;
  }
