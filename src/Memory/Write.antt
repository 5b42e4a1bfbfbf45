-- ===== src/Memory/Write.antt =====
-- Writes into one object that `malloc` made, and what they leave alone.
use mathlib.Core.Path.{fun_ext}
use sleepytext.Prelude.{
  ℕ, ◌<◌, ◌≡◌, ap, ◌∙◌, Bool, false, some, List, lt→ltb, ◌==◌, length, get_elem?, set, arith,
}
use sleepytext.Memory.{Block, null, static, heap, Ptr, Mem, peek, update, ok, store}
use sleepytext.Memory.Holds.{Holds, nil, cons}

abbrev pub at_heap : ℕ → ℕ → Ptr
at_heap a off = record { block = heap a; off = off }

-- Object `a` gets the bytes `cs`.
unfoldable pub written : Mem → ℕ → List ℕ → Mem
written m a cs = record m { objects = update m.objects a (some cs) }

abbrev pub is_heap : ℕ → Block → Bool
is_heap a null = false
is_heap a (static s) = false
is_heap a (heap b) = a == b

pub written-written :
    (m : Mem) (a : ℕ) (cs ds : List ℕ) → written (written m a cs) a ds ≡ written m a ds
unfolding written
written-written m a cs ds = ap (λ f. record m { objects = f }) (fun_ext λ b. ground arith)

pub written_self : (m : Mem) (a : ℕ) (cs : List ℕ) → m.objects a ≡ some cs → m ≡ written m a cs
unfolding written
written_self m a cs e = ap (λ f. record m { objects = f }) (fun_ext λ b. ground arith)

pub written_at : (m : Mem) (a : ℕ) (cs : List ℕ) → (written m a cs).objects a ≡ some cs
unfolding written
written_at m a cs = ground arith

pub store-written :
    (m : Mem) (a off c : ℕ) (cs : List ℕ)
    → m.objects a ≡ some cs
    → off < length cs
    → store (at_heap a off) c m ≡ ok tt (written m a (set cs off c))
unfolding store written
store-written m a off c cs e h = ground (arith, lt→ltb off (length cs) h)

pub peek-written :
    (m : Mem) (a : ℕ) (cs : List ℕ) (p : Ptr)
    → is_heap a p.block ≡ false
    → peek (written m a cs) p ≡ peek m p
unfolding peek written
peek-written m a cs p h = ground arith

pub peek-written_self :
    (m : Mem) (a off : ℕ) (cs : List ℕ) → peek (written m a cs) (at_heap a off) ≡ get_elem? cs off
unfolding peek written
peek-written_self m a off cs = ground arith

pub Holds-written :
    {m : Mem} (a : ℕ) (cs : List ℕ) {p : Ptr} {xs : List ℕ}
    → is_heap a p.block ≡ false
    → Holds m p xs
    → Holds (written m a cs) p xs
Holds-written a cs h nil = nil
Holds-written {m} a cs {p} h (cons e k) =
    cons (peek-written m a cs p h ∙ e) (Holds-written a cs h k)
