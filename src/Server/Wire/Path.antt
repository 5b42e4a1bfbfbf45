-- ===== src/Server/Wire/Path.antt =====
-- src/server.c: the path of a branch's file, printed into memory that is given back.
use mathlib.Core.List.{append-nil}
use sleepytext.Prelude.{
  ℕ, ◌+◌, ◌≤◌, ◌<◌, ◌≡◌, refl, ap, ◌∙◌, some, none, List, [], ◌∷◌, ◌++◌, length, length-append,
  arith,
}
use sleepytext.Prelude.Int.{pos}
use sleepytext.Prelude.Text.{codes}
use sleepytext.Prelude.Words.{to_int}
use sleepytext.Memory.{Mem, ok, free, fill, update}
use sleepytext.Memory.Write.{at_heap, written, written_at}
use sleepytext.Memory.Overwrite.{
  overwrite, length-fill, length-overwrite, overwrite-StandsAt, StandsAt-Holds,
}
use sleepytext.Bytes.{Bytes, view, bfree, bvoid}
use sleepytext.Bytes.Fresh.{allocated, balloc-allocated, allocated_own}
use sleepytext.Bytes.Print.Shown.{show_int-le, show_int-Lacks}
use sleepytext.Bytes.Find.First.{Lacks, Lacks-append}
use sleepytext.Bytes.Print.{show_int, text, number, print_pieces, c_string}
use sleepytext.Bytes.Print.Cstring.{c_string-Holds}
use sleepytext.Bytes.Print.Written.{bprintf-overwrite}
use sleepytext.Server.Wire.{branch_path}

-- The name of the file of branch `id`.
unfoldable pub branch_name : ℕ → List ℕ
branch_name id = codes "./branches/" ++ show_int (to_int (pos id))

-- Object `a` holds `cs`, and there is room for a path in another object.
pub record Ready (m : Mem) (a : ℕ) (cs : List ℕ) : Type 0 where
  pub holds : m.objects a ≡ some cs
  pub older : a < m.next
  pub room : 256 ≤ m.room

branch_name-Lacks : (id : ℕ) → Lacks 0 (branch_name id)
unfolding branch_name
branch_name-Lacks id =
    Lacks-append 0 (codes "./branches/") (show_int (to_int (pos id))) (omega arith)
      (show_int-Lacks (to_int (pos id)))

branch_name-le : (id : ℕ) → length (branch_name id) ≤ 32
unfolding branch_name
branch_name-le id = omega (
  arith,
  length-append (codes "./branches/") (show_int (to_int (pos id))),
  show_int-le (to_int (pos id)),
)

branch_name_printed :
    (id : ℕ) (m : Mem)
    → print_pieces (text (codes "./branches/") ∷ number (to_int (pos id)) ∷ []) m
      ≡ ok (branch_name id) m
unfolding print_pieces branch_name
branch_name_printed id m =
    ap (λ s. ok (codes "./branches/" ++ s) m) (append-nil (show_int (to_int (pos id))))

-- The memory after `free` of object `b`, which held `bytes`.
abbrev released : Mem → ℕ → List ℕ → Mem
released m b bytes = record m { room = m.room + length bytes; objects = update m.objects b none }

bfree-released :
    (m : Mem) (b n : ℕ) (bytes : List ℕ)
    → m.objects b ≡ some bytes
    → bfree (view (at_heap b 0) n) m ≡ ok bvoid (released m b bytes)
unfolding bfree free
bfree-released m b n bytes o = rw o refl

released-Ready :
    {m : Mem} {a : ℕ} {cs : List ℕ} (bytes : List ℕ)
    → Ready m a cs
    → length bytes ≡ 256
    → Ready (released (written (allocated 256 m) m.next bytes) m.next bytes) a cs
unfolding written
released-Ready bytes r size = ground arith

-- The path is printed into a new object, read from there by `open`, and given back.
pub record Opened (m : Mem) (a : ℕ) (cs : List ℕ) (id : ℕ) : Type 0 where
  pub path : Bytes
  pub during : Mem
  pub after : Mem
  pub path_printed : branch_path id m ≡ ok path during
  pub path_read : c_string path.ptr during ≡ ok (branch_name id) during
  pub path_freed : bfree path during ≡ ok bvoid after
  pub ready : Ready after a cs

pub branch_path-Opened : {m : Mem} {a : ℕ} {cs : List ℕ} (id : ℕ) → Ready m a cs → Opened m a cs id
unfolding branch_path
branch_path-Opened {m} {a} {cs} id r =
    let b : ℕ = m.next in
    let blank : List ℕ = fill (m.garbage b) 0 256 in
    let s : List ℕ = branch_name id in
    let bytes : List ℕ = overwrite blank 0 (s ++ 0 ∷ []) in
    let blank_size : length blank ≡ 256 = length-fill (m.garbage b) 0 256 in
    let s_size = length-append s (0 ∷ []) in
    let s_le = branch_name-le id in
    let during : Mem = written (allocated 256 m) b bytes in
    let bytes_size : length bytes ≡ 256 = length-overwrite blank 0 (s ++ 0 ∷ []) ∙ blank_size in
    record {
      path = view (at_heap b 0) 256;
      during = during;
      after = released during b bytes;
      path_printed =
          rw
            (
              balloc-allocated 256 m r.room,
              bprintf-overwrite b 0 256 blank s _ (branch_name_printed id (allocated 256 m))
                  (allocated_own 256 m) (omega arith) (omega arith) (omega arith),
            )
            refl;
      path_read =
          c_string-Holds s
            (StandsAt-Holds (allocated 256 m) b
              (overwrite-StandsAt blank 0 (s ++ 0 ∷ []) (omega arith)))
            (branch_name-Lacks id);
      path_freed = bfree-released during b 256 bytes (written_at (allocated 256 m) b bytes);
      ready = released-Ready bytes r bytes_size;
    }
