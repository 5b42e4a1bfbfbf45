-- ===== src/Server/Wire/Numbers.antt =====
-- src/server.c: numbers in network byte order, read and turned round in place.
use sleepytext.Prelude.{
  ℕ, ◌/◌, ◌%◌, ◌^◌, ◌<◌, ◌≡◌, refl, ap, some, List, [], ◌∷◌, ◌++◌, length, length-append, arith,
}
use sleepytext.Memory.{Mem, Ptr, ok}
use sleepytext.Memory.Holds.{Holds, Holds-load, Holds-tail, +p-+p}
use sleepytext.Memory.Object.{object-Holds, overwrite-middle}
use sleepytext.Memory.Write.{at_heap, written}
use sleepytext.Bytes.Print.Written.{write_bytes-overwrite}
use sleepytext.Server.Wire.{le32, load_net32, ntohl_in_place}

-- The four bytes of a number as the client sends them.
abbrev pub be32 : ℕ → List ℕ
be32 v = (v / 2 ^ 24 % 256) ∷ (v / 2 ^ 16 % 256) ∷ (v / 2 ^ 8 % 256) ∷ (v % 256) ∷ []

pub load_net32-be32 :
    {m : Mem} {p : Ptr} (v : ℕ) → v < 2 ^ 32 → Holds m p (be32 v) → load_net32 p m ≡ ok v m
unfolding load_net32
load_net32-be32 {m} {p} v small h =
    let h1 = Holds-tail h in
    let h2 = rw (+p-+p p 1 1) at (Holds-tail h1) in
    let h3 = rw (+p-+p p 2 1) at (Holds-tail h2) in
    rw (Holds-load h, Holds-load h1, Holds-load h2, Holds-load h3) (ap (λ n. ok n m) (omega arith))

pub ntohl_in_place-be32 :
    (m : Mem) (a off v : ℕ) (pre post : List ℕ)
    → m.objects a ≡ some (pre ++ (be32 v ++ post))
    → off ≡ length pre
    → v < 2 ^ 32
    → ntohl_in_place (at_heap a off) m ≡ ok v (written m a (pre ++ (le32 v ++ post)))
unfolding ntohl_in_place
ntohl_in_place-be32 m a off v pre post o e small =
    rw (load_net32-be32 {m = m} v small (object-Holds a off pre (be32 v) post o e)) (
      rw
        (write_bytes-overwrite (le32 v) a off (pre ++ (be32 v ++ post)) m o
          (rw (length-append pre (be32 v ++ post)) (omega arith)))
        (ap (λ cs. ok v (written m a cs)) (overwrite-middle pre (be32 v) (le32 v) post off e refl)))
