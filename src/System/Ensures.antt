-- ===== src/System/Ensures.antt =====
-- What holds of the world, and of the result, where an `Io` comes to its end.
use sleepytext.Prelude.{Option, none, some, Bool, true, false, if◌then◌else◌}
use sleepytext.Memory.{Mem, Action, Outcome, fault, out_of_fuel, ok, resume}
use sleepytext.System.{
  Reply, crashed, unfinished, done, Io, continue, ◌>>=◌, ◌>>◌, return, local, world, look, outcome,
}

abbrev pub Post : {W A : Type 0} → (A → W → Type 0) → Reply W A → Type 0
Post Q crashed = Unit
Post Q unfinished = Unit
Post Q (done a m w) = Q a w

pub record Ensures {W A : Type 0} (P : W → Type 0) (io : Io W A) (Q : A → W → Type 0) : Type 0 where
  pub run : (m : Mem) (w : W) → P w → Post Q (io m w)

-- What holds of the value that an action on the memory yields.
abbrev pub Yields : {A : Type 0} → (A → Type 0) → Outcome A → Type 0
Yields R fault = Unit
Yields R out_of_fuel = Unit
Yields R (ok a m) = R a

pub Yields-resume :
    {A B : Type 0} (R : B → Type 0) (rest : A → Action B) (o : Outcome A)
    → ((a : A) (m : Mem) → Yields R (rest a m))
    → Yields R (resume rest o)
Yields-resume R rest fault y = tt
Yields-resume R rest out_of_fuel y = tt
Yields-resume R rest (ok a m) y = y a m

module _ {W : Type 0} where
  Post-continue :
      {A B : Type 0} {Q : A → W → Type 0} {R : B → W → Type 0} {rest : A → Io W B} (r : Reply W A)
      → Post Q r
      → ((a : A) → Ensures (Q a) (rest a) R)
      → Post R (continue rest r)
  Post-continue crashed h k = tt
  Post-continue unfinished h k = tt
  Post-continue (done a m w) h k = (k a).run m w h

  pub Ensures-bind :
      {A B : Type 0} {P : W → Type 0} {Q : A → W → Type 0} {R : B → W → Type 0} {first : Io W A}
      {rest : A → Io W B}
      → Ensures P first Q
      → ((a : A) → Ensures (Q a) (rest a) R)
      → Ensures P (first >>= rest) R
  Ensures-bind {first = first} e k = record {
    run = λ m w p. Post-continue (first m w) (e.run m w p) k;
  }

  pub Ensures-then :
      {A B : Type 0} {P Q : W → Type 0} {R : B → W → Type 0} {first : Io W A} {rest : Io W B}
      → Ensures P first (λ a. Q)
      → Ensures Q rest R
      → Ensures P (first >> rest) R
  Ensures-then e k = Ensures-bind e (λ a. k)

  Post-outcome :
      {A : Type 0} (P : W → Type 0) (w : W) (o : Outcome A) → P w → Post (λ a. P) (outcome w o)
  Post-outcome P w fault p = tt
  Post-outcome P w out_of_fuel p = tt
  Post-outcome P w (ok a m) p = p

  pub Ensures-local :
      {A : Type 0} {P : W → Type 0} (action : Action A) → Ensures P (local action) (λ a. P)
  Ensures-local {P = P} action = record { run = λ m w p. Post-outcome P w (action m) p }

  Post-Yields :
      {A : Type 0} (R : A → Type 0) (w : W) (o : Outcome A)
      → Yields R o
      → Post (λ a w'. R a) (outcome w o)
  Post-Yields R w fault y = tt
  Post-Yields R w out_of_fuel y = tt
  Post-Yields R w (ok a m) y = y

  pub Ensures-Yields :
      {A : Type 0} {P : W → Type 0} {R : A → Type 0} (action : Action A)
      → ((m : Mem) → Yields R (action m))
      → Ensures P (local action) (λ a w. R a)
  Ensures-Yields {R = R} action y = record { run = λ m w p. Post-Yields R w (action m) (y m) }

  Post-any : {A : Type 0} (r : Reply W A) → Post (λ a w. Unit {0}) r
  Post-any crashed = tt
  Post-any unfinished = tt
  Post-any (done a m w) = tt

  pub Ensures-any : {A : Type 0} {P : W → Type 0} (io : Io W A) → Ensures P io (λ a w. Unit)
  Ensures-any io = record { run = λ m w p. Post-any (io m w) }

  pub Ensures-world :
      {A : Type 0} {P : W → Type 0} {Q : A → W → Type 0} {call : W → A × W}
      → ((w : W) → P w → Q (call w).0 (call w).1)
      → Ensures P (world call) Q
  Ensures-world h = record { run = λ m w p. h w p }

  pub Ensures-look : {A : Type 0} {P : W → Type 0} (read : W → A) → Ensures P (look read) (λ a. P)
  Ensures-look read = record { run = λ m w p. p }

  pub Ensures-return :
      {A : Type 0} {P : W → Type 0} {Q : A → W → Type 0} {a : A}
      → ((w : W) → P w → Q a w)
      → Ensures P (return a) Q
  Ensures-return h = record { run = λ m w p. h w p }

  pub Ensures-if :
      {A : Type 0} {P : W → Type 0} {Q : A → W → Type 0} (b : Bool) {x y : Io W A}
      → Ensures P x Q
      → Ensures P y Q
      → Ensures P (if b then x else y) Q
  Ensures-if true h k = h
  Ensures-if false h k = k

  Post-weaken :
      {A : Type 0} {Q Q' : A → W → Type 0} (r : Reply W A)
      → ((a : A) (w : W) → Q a w → Q' a w)
      → Post Q r
      → Post Q' r
  Post-weaken crashed post h = tt
  Post-weaken unfinished post h = tt
  Post-weaken (done a m w) post h = post a w h

  pub Ensures-weaken :
      {A : Type 0} {P P' : W → Type 0} {Q Q' : A → W → Type 0} {io : Io W A}
      → Ensures P io Q
      → ((w : W) → P' w → P w)
      → ((a : A) (w : W) → Q a w → Q' a w)
      → Ensures P' io Q'
  Ensures-weaken {io = io} e pre post = record {
    run = λ m w p. Post-weaken (io m w) post (e.run m w (pre w p));
  }

  -- A precondition that does not look at the world is a hypothesis.
  pub Ensures-given :
      {A : Type 0} {F : Type 0} {Q : A → W → Type 0} (io : Io W A)
      → (F → Ensures (λ w. Unit) io Q)
      → Ensures (λ w. F) io Q
  Ensures-given io k = record { run = λ m w p. (k p).run m w tt }

  -- The cases of an option of which `F` is known.
  pub Ensures-option :
      {A B : Type 0} {P : W → Type 0} {Q : B → W → Type 0} {x : Io W B} {y : A → Io W B}
      (F : Option A → Type 0) (o : Option A)
      → F o
      → (F none → Ensures P x Q)
      → ((a : A) → F (some a) → Ensures P (y a) Q)
      → Ensures P (elim o [ none ↦ x | some a ↦ y a ]) Q
  Ensures-option F none f h k = h f
  Ensures-option F (some a) f h k = k a f
