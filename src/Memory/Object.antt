-- ===== src/Memory/Object.antt =====
-- An object by the runs of bytes that it is made of: what it holds, and the replacement of a run.
use mathlib.Core.List.{append_assoc}
use sleepytext.Prelude.{
  ℕ, ◌+◌, ◌≡◌, refl, ap, ◌∙◌, some, List, [], ◌∷◌, ◌++◌, length, length-append, get_elem?, set,
  arith,
}
use sleepytext.Memory.{Mem, peek}
use sleepytext.Memory.Holds.{Holds, nil, cons}
use sleepytext.Memory.Write.{at_heap}
use sleepytext.Memory.Overwrite.{overwrite}

get_elem?-middle :
    (pre : List ℕ) (x : ℕ) (xs : List ℕ) (i : ℕ)
    → i ≡ length pre
    → get_elem? (pre ++ x ∷ xs) i ≡ some x
get_elem?-middle [] x xs i e = rw e refl
get_elem?-middle (y ∷ pre) x xs i e = rw e (get_elem?-middle pre x xs (length pre) refl)

pub object-Holds :
    {m : Mem} (a off : ℕ) (pre xs post : List ℕ)
    → m.objects a ≡ some (pre ++ (xs ++ post))
    → off ≡ length pre
    → Holds m (at_heap a off) xs
unfolding peek
object-Holds a off pre [] post o e = nil
object-Holds {m} a off pre (x ∷ xs) post o e =
    cons (rw o (get_elem?-middle pre x (xs ++ post) off e)) (
      object-Holds a (off + 1) (pre ++ x ∷ []) xs post
        (o ∙ ap some (rw (append_assoc pre (x ∷ []) (xs ++ post)) refl))
        (rw length-append (omega arith)))

pub set-middle :
    (pre : List ℕ) (old x : ℕ) (post : List ℕ) (i : ℕ)
    → i ≡ length pre
    → set (pre ++ old ∷ post) i x ≡ pre ++ x ∷ post
set-middle [] old x post i e = rw e refl
set-middle (y ∷ pre) old x post i e =
    rw e (ap (◌∷◌ y) (set-middle pre old x post (length pre) refl))

pub overwrite-middle :
    (pre old xs post : List ℕ) (i : ℕ)
    → i ≡ length pre
    → length old ≡ length xs
    → overwrite (pre ++ (old ++ post)) i xs ≡ pre ++ (xs ++ post)
overwrite-middle pre [] [] post i e s = refl
overwrite-middle pre [] (x ∷ xs) post i e s = absurd (omega arith)
overwrite-middle pre (o ∷ old) [] post i e s = absurd (omega arith)
overwrite-middle pre (o ∷ old) (x ∷ xs) post i e s =
    ap (λ cs. overwrite cs (i + 1) xs) (set-middle pre o x (old ++ post) i e)
    ∙ rw (← append_assoc pre (x ∷ []) (old ++ post), ← append_assoc pre (x ∷ []) (xs ++ post))
        (overwrite-middle (pre ++ x ∷ []) old xs post (i + 1) (rw length-append (omega arith))
          (omega arith))
