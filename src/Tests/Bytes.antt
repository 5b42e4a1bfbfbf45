-- ===== src/Tests/Bytes.antt =====
-- src/bytes.c at concrete inputs.
use sleepytext.Prelude.{ℕ, ◌≡◌, ◌⊎◌, refl, some, List, [], ◌∷◌, ◌++◌, arith}
use sleepytext.Prelude.Text.{codes}
use sleepytext.Prelude.Int.{pos, neg}
use sleepytext.Memory.{Mem, ok, fault, peek}
use sleepytext.Memory.Write.{at_heap, written}
use sleepytext.Memory.Overwrite.{overwrite}
use sleepytext.Bytes.{Bytes, view, bs, BFound, not_found, bfind, bcat, bfromstr}
use sleepytext.Memory.Holds.{nil, cons}
use sleepytext.Bytes.Print.{text, number, bprintf, print_pieces, show_int}
use sleepytext.Bytes.Print.Cstring.{bfromstr-Holds}
use sleepytext.Bytes.Print.Written.{printed, bprintf-overwrite}
use sleepytext.Bytes.Views.{bs-Views}
use sleepytext.Bytes.Copy.{bcat-append}
use sleepytext.Bytes.Find.{scan, result, bfind-scan}
use sleepytext.Bytes.Find.Sound.{Splits, Parts, bfind_sound}
use sleepytext.Bytes.Find.First.{bfind_first, bfind_overlap}
use sleepytext.Bytes.Number.{btoi64}
use sleepytext.Bytes.Number.Decimal.{decimal, btoi64-decimal, btoi64_negative, btoi64_garbage}

-- One object of eight bytes.
abbrev pub mem : Mem
mem = record {
  next = 1;
  room = 4096;
  garbage = λ a i. 7;
  objects = λ a. some (1 ∷ 2 ∷ 3 ∷ 4 ∷ 5 ∷ 6 ∷ 7 ∷ 8 ∷ []);
}

abbrev header : List ℕ
header = codes "GET /x HTTP"

abbrev space : List ℕ
space = codes " "

bfind-scan_example :
    bfind (bs header) (bs space) mem
    ≡ ok (result (bs header) (bs space) (scan space space header 0)) mem
bfind-scan_example = bfind-scan (bs-Views header) (bs-Views space) (omega arith)

bfind_sound_example :
    (f : BFound) × (bfind (bs header) (bs space) mem ≡ ok f mem)
    × ((f ≡ not_found (bs header)) ⊎ Splits mem f header space)
bfind_sound_example = bfind_sound (bs-Views header) (bs-Views space) (omega arith)

bfind_first_example :
    (f : BFound) × (bfind (bs header) (bs space) mem ≡ ok f mem)
    × Parts mem f (codes "GET") space (codes "/x HTTP")
bfind_first_example =
    bfind_first (codes "GET") (codes "/x HTTP") (bs-Views header) (bs-Views space) (omega arith)
      (omega arith)

bfind_overlap_example :
    bfind (bs (codes "a\r\r\nb")) (bs (codes "\r\n")) mem
    ≡ ok (not_found (bs (codes "a\r\r\nb"))) mem
bfind_overlap_example =
    bfind_overlap b'\r' b'\n' (codes "a") (codes "b") (bs-Views _) (bs-Views _) (omega arith)
      (omega arith) (omega arith) (omega arith)

btoi64-decimal_example : btoi64 (bs (codes "1234")) mem ≡ ok (pos 1234) mem
unfolding decimal
btoi64-decimal_example = btoi64-decimal {v = 1234} (bs-Views (codes "1234")) (omega arith) refl

btoi64_overflow : btoi64 (bs (codes "9223372036854775808")) mem ≡ fault
unfolding decimal
btoi64_overflow =
    btoi64-decimal {v = 9223372036854775808} (bs-Views (codes "9223372036854775808")) (omega arith)
      refl

btoi64_negative_example : btoi64 (bs (codes "-12")) mem ≡ ok (neg 12) mem
unfolding decimal
btoi64_negative_example =
    btoi64_negative {xs = codes "12"} (bs-Views (codes "-12")) (omega arith) refl (omega arith)

btoi64_garbage_example : btoi64 (bs (codes "12;3")) mem ≡ ok (pos 0) mem
unfolding decimal
btoi64_garbage_example =
    btoi64_garbage b';' (codes "12") (codes "3") {v = 12} (bs-Views (codes "12;3")) (omega arith)
      refl (omega arith) refl refl

bcat-append_example :
    bcat (view (at_heap 0 1) 5) (bs (codes "abc")) (bs (codes "def")) mem
    ≡ ok
        (view (at_heap 0 1) 5)
        (written mem 0 (overwrite (1 ∷ 2 ∷ 3 ∷ 4 ∷ 5 ∷ 6 ∷ 7 ∷ 8 ∷ []) 1 (codes "abcde")))
bcat-append_example =
    bcat-append 0 1 5 (bs-Views (codes "abc")) (bs-Views (codes "def")) refl (omega arith)
      (omega arith) refl refl

bfromstr-Holds_example :
    bfromstr (bs (codes "Cookie")).ptr mem ≡ ok (view (bs (codes "Cookie")).ptr 6) mem
unfolding peek
bfromstr-Holds_example =
    bfromstr-Holds {m = mem} {p = (bs (codes "Cookie")).ptr} (codes "Cookie")
      (cons refl (cons refl (cons refl (cons refl (cons refl (cons refl (cons refl nil)))))))
      (omega arith)

bprintf-overwrite_example :
    bprintf (view (at_heap 0 1) 6) (text (codes "v") ∷ number (neg 12) ∷ []) mem
    ≡ ok
        (printed 0 1 6 4)
        (written mem 0 (overwrite (1 ∷ 2 ∷ 3 ∷ 4 ∷ 5 ∷ 6 ∷ 7 ∷ 8 ∷ []) 1 (codes "v-12" ++ 0 ∷ [])))
unfolding print_pieces show_int
bprintf-overwrite_example =
    bprintf-overwrite 0 1 6 (1 ∷ 2 ∷ 3 ∷ 4 ∷ 5 ∷ 6 ∷ 7 ∷ 8 ∷ []) (codes "v-12")
      (text (codes "v") ∷ number (neg 12) ∷ []) {m = mem} refl refl (omega arith) (omega arith)
      (omega arith)
