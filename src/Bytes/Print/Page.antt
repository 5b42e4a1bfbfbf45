-- ===== src/Bytes/Print/Page.antt =====
-- src/bytes.c: texts that `bprintf` writes one behind the other into an object of 4096 bytes, each
-- into the view of the room that the one before left.
use sleepytext.Prelude.{
  ℕ, ◌+◌, ◌-◌, ◌≤◌, ◌<◌, ◌≡◌, sym, ap, ◌∙◌, some, List, [], ◌∷◌, ◌++◌, length, length-append, arith,
}
use mathlib.Core.Path.{subst}
use sleepytext.Memory.{Mem, ok, fill}
use sleepytext.Memory.Write.{at_heap, written, written_at, written_self}
use sleepytext.Memory.Holds.{Holds}
use sleepytext.Memory.Overwrite.{
  overwrite, StandsAt, length-fill, nil, cons, length-overwrite, get_elem?-overwrite_below,
  overwrite-StandsAt, StandsAt-Holds,
}
use sleepytext.Bytes.{Bytes, view}
use sleepytext.Bytes.Fresh.{allocated, allocated_own}
use sleepytext.Bytes.Print.{Piece, print_pieces, bprintf}
use sleepytext.Bytes.Print.Written.{bprintf-overwrite}

-- Object `a` has 4096 bytes, which begin with `s`.
pub record Page (m : Mem) (a : ℕ) (s : List ℕ) : Type 0 where
  pub bytes : List ℕ
  pub holds : m.objects a ≡ some bytes
  pub size : length bytes ≡ 4096
  pub stands : StandsAt bytes 0 s

-- The room behind the first `k` bytes.
abbrev pub rest_from : ℕ → ℕ → Bytes
rest_from a k = view (at_heap a k) (4096 - k)

pub allocated-Page : (m : Mem) → Page (allocated 4096 m) m.next []
allocated-Page m = record {
  bytes = fill (m.garbage m.next) 0 4096;
  holds = allocated_own 4096 m;
  size = length-fill (m.garbage m.next) 0 4096;
  stands = nil;
}

-- What a page begins with stands in memory.
pub Page-Holds : {m : Mem} {a : ℕ} {s : List ℕ} → Page m a s → Holds m (at_heap a 0) s
Page-Holds {m} {a} {s} page =
    subst (λ n. Holds n (at_heap a 0) s) (sym (written_self m a page.bytes page.holds))
      (StandsAt-Holds m a page.stands)

pub StandsAt-append :
    {cs : List ℕ} {off : ℕ} {xs ys : List ℕ} (k : ℕ)
    → StandsAt cs off xs
    → off + length xs ≡ k
    → StandsAt cs k ys
    → StandsAt cs off (xs ++ ys)
StandsAt-append {cs} {ys = ys} k nil e h = subst (λ i. StandsAt cs i ys) (omega arith) h
StandsAt-append {xs = x ∷ xs} k (cons here next) e h =
    cons here (StandsAt-append k next (omega arith) h)

StandsAt-append_left :
    {cs : List ℕ} (xs ys : List ℕ) {off : ℕ} → StandsAt cs off (xs ++ ys) → StandsAt cs off xs
StandsAt-append_left [] ys h = nil
StandsAt-append_left (x ∷ xs) ys (cons e h) = cons e (StandsAt-append_left xs ys h)

pub StandsAt-overwrite :
    {cs : List ℕ} {off : ℕ} {xs : List ℕ} (from : ℕ) (ys : List ℕ)
    → StandsAt cs off xs
    → off + length xs ≤ from
    → StandsAt (overwrite cs from ys) off xs
StandsAt-overwrite from ys nil h = nil
StandsAt-overwrite {cs} {off} from ys (cons e k) h =
    cons (get_elem?-overwrite_below cs from off ys (omega arith) ∙ e)
      (StandsAt-overwrite from ys k (omega arith))

-- `bprintf` behind the text of a page, and what it leaves of the page's object; nothing else changes.
pub bprintf-written :
    {m : Mem} {a : ℕ} {s : List ℕ} (k k' : ℕ) (t : List ℕ) (pieces : List Piece)
    → Page m a s
    → k ≡ length s
    → k + length t ≡ k'
    → print_pieces pieces m ≡ ok t m
    → k' < 4096
    → (cs : List ℕ) × (bprintf (rest_from a k) pieces m
        ≡ ok
            (record { first = view (at_heap a k) (length t); second = rest_from a k' })
            (written m a cs))
      × (length cs ≡ 4096)
      × Page (written m a cs) a (s ++ t)
bprintf-written {m} {a} {s} k k' t pieces page is is' prints room =
    let t₀ : List ℕ = t ++ 0 ∷ [] in
    let t_size = length-append t (0 ∷ []) in
    let cs : List ℕ = overwrite page.bytes k t₀ in
    (
      cs,
      bprintf-overwrite a k (4096 - k) page.bytes t pieces prints page.holds (omega arith)
            (omega (arith, page.size)) (omega arith)
          ∙ ap
              (λ b.
                ok (record { first = view (at_heap a k) (length t); second = b }) (written m a cs))
              (rw is' (ap (view (at_heap a k')) (omega arith))),
      length-overwrite page.bytes k t₀ ∙ page.size,
      record {
        bytes = cs;
        holds = written_at m a cs;
        size = length-overwrite page.bytes k t₀ ∙ page.size;
        stands =
            StandsAt-append k (StandsAt-overwrite k t₀ page.stands (omega arith)) (omega arith) (
              StandsAt-append_left t (0 ∷ [])
                (overwrite-StandsAt page.bytes k t₀ (omega (arith, page.size))));
      },
    )

pub bprintf-Page :
    {m : Mem} {a : ℕ} {s : List ℕ} (k k' : ℕ) (t : List ℕ) (pieces : List Piece)
    → Page m a s
    → k ≡ length s
    → k + length t ≡ k'
    → print_pieces pieces m ≡ ok t m
    → k' < 4096
    → (m' : Mem) × (bprintf (rest_from a k) pieces m
        ≡ ok (record { first = view (at_heap a k) (length t); second = rest_from a k' }) m')
      × Page m' a (s ++ t)
bprintf-Page {m} {a} k k' t pieces page is is' prints room =
    let (cs, ran, size, page') = bprintf-written k k' t pieces page is is' prints room in
    (written m a cs, ran, page')
