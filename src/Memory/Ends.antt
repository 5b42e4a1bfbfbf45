-- ===== src/Memory/Ends.antt =====
-- Actions on the memory that come to an end, or stop with a fault, whatever the memory holds; and what
-- a store changes.
use mathlib.Core.Path.{subst}
use sleepytext.Prelude.{
  ℕ, ◌+◌, ◌≤◌, ◌<◌, ◌≡◌, ◌≢◌, refl, sym, ◌∙◌, Bool, true, false, none, some, List, [], ◌∷◌, ltb,
  length, if◌then◌else◌, ◌==◌, get_elem?, set, ◌⊎◌, inl, inr, Option-cases, Bool-cases, arith,
}
use sleepytext.Memory.{
  Block, null, static, heap, Ptr, Mem, Action, Outcome, fault, out_of_fuel, ok, resume, peek, load,
  store, malloc, free, pure, ◌>>=◌,
}
use sleepytext.Memory.Holds.{Holds, nil, cons}
use sleepytext.Memory.Overwrite.{get_elem?-set_self, get_elem?-set_ne}
use sleepytext.Memory.Write.{at_heap, store-written, peek-written_self}

-- An outcome that is not out of fuel: what it yields has the property `Q`.
abbrev pub After : {A : Type 0} → (A → Mem → Type 0) → Outcome A → Type 0
After Q fault = Unit
After Q out_of_fuel = ⊥
After Q (ok a m) = Q a m

-- The action comes to an end on this memory, with a result that has the property, or stops with a fault.
pub record Ends {A : Type 0} (m : Mem) (action : Action A) (Q : A → Mem → Type 0) : Type 0 where
  pub after : After Q (action m)

-- Nothing is known of what it yields.
abbrev pub Anything : {A : Type 0} → A → Mem → Type 0
Anything a m = Unit

After-resume :
    {A B : Type 0} (Q : A → Mem → Type 0) (R : B → Mem → Type 0) (rest : A → Action B)
    (o : Outcome A)
    → After Q o
    → ((a : A) (m : Mem) → Q a m → Ends m (rest a) R)
    → After R (resume rest o)
After-resume Q R rest fault e k = tt
After-resume Q R rest out_of_fuel e k = absurd e
After-resume Q R rest (ok a m) e k = (k a m e).after

pub Ends-bind :
    {A B : Type 0} {m : Mem} {first : Action A} {rest : A → Action B} {Q : A → Mem → Type 0}
    {R : B → Mem → Type 0}
    → Ends m first Q
    → ((a : A) (m' : Mem) → Q a m' → Ends m' (rest a) R)
    → Ends m (first >>= rest) R
Ends-bind {m = m} {first} {rest} {Q} {R} e k = record {
  after = After-resume Q R rest (first m) e.after k;
}

pub Ends-pure : {A : Type 0} {m : Mem} {Q : A → Mem → Type 0} (a : A) → Q a m → Ends m (pure a) Q
Ends-pure a q = record { after = q }

pub Ends-weaken :
    {A : Type 0} {m : Mem} {action : Action A} {Q R : A → Mem → Type 0}
    → Ends m action Q
    → ((a : A) (m' : Mem) → Q a m' → R a m')
    → Ends m action R
Ends-weaken {A} {m = m} {action} {Q} {R} e k = record { after = go (action m) e.after }
  where
    go : (o : Outcome A) → After Q o → After R o
    go fault q = tt
    go out_of_fuel q = absurd q
    go (ok a m') q = k a m' q

pub Ends-if :
    {A : Type 0} {m : Mem} {Q : A → Mem → Type 0} (b : Bool) {x y : Action A}
    → Ends m x Q
    → Ends m y Q
    → Ends m (if b then x else y) Q
Ends-if true h k = h
Ends-if false h k = k

pub load-Ends : (p : Ptr) (m : Mem) → Ends m (load p) (λ c m'. m' ≡ m)
unfolding load
load-Ends p m = record {
  after =
      elim (peek m p) as (λ o. After (λ c m'. m' ≡ m) (elim o [ none ↦ fault | some c ↦ ok c m ])) [
        | none ↦ tt
        | some c ↦ refl
      ];
}

pub malloc-Ends : (n : ℕ) (m : Mem) → Ends m (malloc n) Anything
unfolding malloc
malloc-Ends n m = elim (Bool-cases (ltb m.room n)) [
  | inl full ↦ record { after = rw full tt }
  | inr fits ↦ record { after = rw fits tt }
]

free_in-After :
    (b : Block) (off : ℕ) (m : Mem) → After Anything (free (record { block = b; off = off }) m)
unfolding free
free_in-After null off m = tt
free_in-After (static s) off m = tt
free_in-After (heap a) off m = elim (Option-cases (m.objects a)) [
  | inl gone ↦ rw (After, gone) tt
  | inr (cs, there) ↦ elim (Bool-cases (off == 0)) [
    | inl start ↦ rw (After, there, start) tt
    | inr inside ↦ rw (After, there, inside) tt
  ]
]

pub free-Ends : (p : Ptr) (m : Mem) → Ends m (free p) Anything
free-Ends p m = record { after = free_in-After p.block p.off m }

-- Everything in the block of `p` but the bytes from `p` up to `n` places on is as it was.
abbrev pub Same : Ptr → ℕ → Mem → Mem → Type 0
Same p n m m' =
    (off : ℕ)
    → (off < p.off) ⊎ (p.off + n ≤ off)
    → peek m' (record p { off = off }) ≡ peek m (record p { off = off })

-- What a store of `c` leaves.
abbrev pub Stores : Ptr → ℕ → Mem → Mem → Type 0
Stores p c m m' = (peek m' p ≡ some c) × Same p 1 m m'

apart-ne : (off i : ℕ) → (i < off) ⊎ (off + 1 ≤ i) → off ≢ i
apart-ne off i (inl h) = omega arith
apart-ne off i (inr h) = omega arith

peek_at :
    (m : Mem) (a i : ℕ) (cs : List ℕ)
    → m.objects a ≡ some cs
    → peek m (at_heap a i) ≡ get_elem? cs i
unfolding peek
peek_at m a i cs there = rw there refl

store_in-After :
    (b : Block) (off c : ℕ) (m : Mem)
    → After
        (λ x. Stores (record { block = b; off = off }) c m)
        (store (record { block = b; off = off }) c m)
unfolding store
store_in-After null off c m = tt
store_in-After (static s) off c m = tt
store_in-After (heap a) off c m = elim (Option-cases (m.objects a)) [
  | inl gone ↦ rw (After, gone) tt
  | inr (cs, there) ↦ elim (Bool-cases (ltb off (length cs))) [
    | inl inside ↦
        let h : off < length cs = ground arith in
        subst (After (λ x. Stores (at_heap a off) c m)) (sym (store-written m a off c cs there h)) (
          peek-written_self m a off (set cs off c) ∙ get_elem?-set_self cs off c h,
          λ i apart.
              peek-written_self m a i (set cs off c)
              ∙ get_elem?-set_ne cs off i c (apart-ne off i apart)
              ∙ sym (peek_at m a i cs there),
        )
    | inr outside ↦ rw (After, there, outside) tt
  ]
]

pub store-Ends : (p : Ptr) (c : ℕ) (m : Mem) → Ends m (store p c) (λ x. Stores p c m)
store-Ends p c m = record { after = store_in-After p.block p.off c m }

-- What stands beside a write in the same object is as it was.
pub Holds-Same :
    {m m' : Mem} (q : Ptr) (n i : ℕ) (xs : List ℕ)
    → Same q n m m'
    → Holds m (record q { off = i }) xs
    → (i + length xs ≤ q.off) ⊎ (q.off + n ≤ i)
    → Holds m' (record q { off = i }) xs
Holds-Same q n i [] same h apart = nil
Holds-Same q n i (x ∷ xs) same (cons e h) (inl below) =
    cons (same i (inl (omega arith)) ∙ e) (Holds-Same q n (i + 1) xs same h (inl (omega arith)))
Holds-Same q n i (x ∷ xs) same (cons e h) (inr above) =
    cons (same i (inr above) ∙ e) (Holds-Same q n (i + 1) xs same h (inr (omega arith)))
