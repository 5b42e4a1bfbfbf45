-- ===== src/Memory.antt =====
-- The memory of the C program, and commands that read and write it. A pointer is an offset into an
-- object. `malloc`, `free` and a dereference are those of C: a read or a write outside an object,
-- through NULL or after `free` is a fault, and so is an overflow of `int` (`inc_int`).
pub mod Ends
pub mod Holds
pub mod Object
pub mod Overwrite
pub mod Write
use sleepytext.Prelude.{
  ℕ, zero, suc, ◌+◌, ◌-◌, Bool, true, false, Option, none, some, List, [], ◌∷◌, ltb, ◌==◌,
  if◌then◌else◌, length, get_elem?, set,
}
use sleepytext.Prelude.Words.{int_max}

-- `static s` is a read-only object with those bytes: a string literal, or memory of a library that
-- the program only reads. `heap a` is the object that the a-th call of `malloc` made.
pub data Block : Type 0 where
  null : Block
  static : List ℕ → Block
  heap : ℕ → Block

pub record Ptr : Type 0 where
  pub block : Block
  pub off : ℕ

abbrev pub null_ptr : Ptr
null_ptr = record { block = null; off = 0 }

infixl 65 ◌+p◌
abbrev pub ◌+p◌ : Ptr → ℕ → Ptr
p +p n = record p { off = p.off + n }

-- `room` is the number of bytes that `malloc` can still hand out, and `garbage a i` the byte that
-- stands at offset `i` of the a-th object before the program writes there.
pub record Mem : Type 0 where
  pub next : ℕ
  pub room : ℕ
  pub garbage : ℕ → ℕ → ℕ
  pub objects : ℕ → Option (List ℕ)

abbrev pub contents : Mem → Block → Option (List ℕ)
contents m null = none
contents m (static s) = some s
contents m (heap a) = m.objects a

unfoldable pub peek : Mem → Ptr → Option ℕ
peek m p = elim (contents m p.block) [ none ↦ none | some cs ↦ get_elem? cs p.off ]

-- How an action ends: a fault is what C leaves undefined.
pub data Outcome (A : Type 0) : Type 0 where
  fault : Outcome A
  out_of_fuel : Outcome A
  ok : A → Mem → Outcome A

abbrev pub Action : Type 0 → Type 0
Action A = Mem → Outcome A

abbrev pub resume : {A B : Type 0} → (A → Action B) → Outcome A → Outcome B
resume rest fault = fault
resume rest out_of_fuel = out_of_fuel
resume rest (ok a m) = rest a m

infixl 5 ◌>>=◌
abbrev pub ◌>>=◌ : {A B : Type 0} → Action A → (A → Action B) → Action B
◌>>=◌ first rest m = resume rest (first m)

infixl 5 ◌>>◌
abbrev pub ◌>>◌ : {A B : Type 0} → Action A → Action B → Action B
◌>>◌ first second = first >>= λ ignored. second

abbrev pub pure : {A : Type 0} → A → Action A
pure = ok

abbrev pub crash : {A : Type 0} → Action A
crash m = fault

-- `*p`
unfoldable pub load : Ptr → Action ℕ
load p m = elim (peek m p) [ none ↦ fault | some c ↦ ok c m ]

abbrev pub update : (ℕ → Option (List ℕ)) → ℕ → Option (List ℕ) → ℕ → Option (List ℕ)
update f a cs b = if a == b then cs else f b

-- `*p = c`: only an object that `malloc` made can be written.
store_in : Block → ℕ → ℕ → Action (Unit {0})
store_in null off c m = fault
store_in (static s) off c m = fault
store_in (heap a) off c m = elim (m.objects a) [
  | none ↦ fault
  | some cs ↦
      if ltb off (length cs)
      then ok tt (record m { objects = update m.objects a (some (set cs off c)) })
      else fault
]

unfoldable pub store : Ptr → ℕ → Action (Unit {0})
unfolding store_in
store p c = store_in p.block p.off c

unfoldable pub fill : (ℕ → ℕ) → ℕ → ℕ → List ℕ
fill g i zero = []
fill g i (suc n) = g i ∷ fill g (i + 1) n

-- `malloc(n)`: NULL where memory is exhausted.
unfoldable pub malloc : ℕ → Action Ptr
unfolding fill
malloc n m =
    if ltb m.room n
    then ok null_ptr m
    else ok (record { block = heap m.next; off = 0 })
        (record m {
          next = m.next + 1;
          room = m.room - n;
          objects = update m.objects m.next (some (fill (m.garbage m.next) 0 n));
        })

-- `free(p)`: nothing at NULL, a fault at what is not the start of an allocated object.
free_in : Block → ℕ → Action (Unit {0})
free_in null off m = ok tt m
free_in (static s) off m = fault
free_in (heap a) off m = elim (m.objects a) [
  | none ↦ fault
  | some cs ↦
      if off == 0
      then ok tt (record m { room = m.room + length cs; objects = update m.objects a none })
      else fault
]

unfoldable pub free : Ptr → Action (Unit {0})
unfolding free_in
free p = free_in p.block p.off

-- `i + 1` on `int`
unfoldable pub inc_int : ℕ → Action ℕ
inc_int i = if ltb i int_max then pure (i + 1) else crash
