-- ===== src/Server/Branches/Listed.antt =====
-- src/server.c: the lines that `branches` answers with.
use mathlib.Core.List.{append_assoc, append-nil}
use sleepytext.Prelude.{
  ℕ, zero, suc, ◌+◌, ◌-◌, ◌<◌, ◌≤◌, ◌≡◌, refl, ap, ◌∙◌, true, false, List, [], ◌∷◌, ◌++◌, length,
  length-append, arith,
}
use sleepytext.Prelude.Int.{ℤ, same_int, is_zero}
use sleepytext.Prelude.Text.{codes}
use sleepytext.Prelude.Words.{sub64, sub64_exact}
use sleepytext.Memory.{Mem, ok}
use sleepytext.Memory.Write.{at_heap}
use sleepytext.Bytes.{Bytes, view}
use sleepytext.Bytes.Fresh.{balloc-allocated}
use sleepytext.Bytes.Print.{print_pieces, show_int}
use sleepytext.Bytes.Print.Page.{Page, rest_from, allocated-Page, bprintf-Page, Page-Holds}
use sleepytext.Bytes.Views.{Views}
use sleepytext.Server.Branches.{
  BranchRow, branch_line, branch_row, branches_loop, list_branches, http_callback_branches,
}
use sleepytext.Server.Session.{getuserid}
use sleepytext.Server.Pages.Read.{page_response}
use sleepytext.Http.{HttpRequest}
use sleepytext.Server.Sql.{Sqlite, selectbranches, sqlite_row}
use sleepytext.System.{done}

-- The line of a branch: four decimal numbers with spaces between them.
abbrev pub row_text : BranchRow → List ℕ
row_text r =
    show_int r.id
    ++ (codes " "
        ++ (show_int r.parent
            ++ (codes " "
                ++ (show_int r.place
                    ++ (codes " " ++ (show_int r.document ++ (codes "\n" ++ [])))))))

abbrev pub list_text : List BranchRow → List ℕ
list_text [] = []
list_text (r ∷ rows) = row_text r ++ list_text rows

branch_line-row_text :
    (r : BranchRow) (m : Mem) → print_pieces (branch_line r) m ≡ ok (row_text r) m
unfolding print_pieces
branch_line-row_text r m = refl

module _ {W : Type 0} (db : Sqlite W) where
  -- The columns of the current row
  abbrev pub read_row : W → BranchRow × W
  read_row w =
      let (id, w1) = db.column_int64 selectbranches 0 w in
      let (parent, w2) = db.column_int64 selectbranches 1 w1 in
      let (place, w3) = db.column_int64 selectbranches 2 w2 in
      let (document, w4) = db.column_int64 selectbranches 3 w3 in
      (record { id = id; parent = parent; place = place; document = document }, w4)

  -- From one world to the other the statement is stepped through these rows up to their end.
  pub data Delivers : W → List BranchRow → W → Type 0 where
    ended :
        (w : W)
        → same_int (db.step selectbranches w).0 sqlite_row ≡ false
        → Delivers w [] (db.step selectbranches w).1
    more :
        (w : W) {rows : List BranchRow} {w' : W}
        → same_int (db.step selectbranches w).0 sqlite_row ≡ true
        → Delivers (read_row (db.step selectbranches w).1).1 rows w'
        → Delivers w ((read_row (db.step selectbranches w).1).0 ∷ rows) w'

  branches_loop-Page :
      (fuel k k' : ℕ) {w w' : W} {rows : List BranchRow} {m : Mem} {a : ℕ} {s : List ℕ}
      → Delivers w rows w'
      → length rows < fuel
      → Page m a s
      → k ≡ length s
      → k + length (list_text rows) ≡ k'
      → k' < 4096
      → (m' : Mem) × (branches_loop db fuel (rest_from a k) m w ≡ done (rest_from a k') m' w')
        × Page m' a (s ++ list_text rows)
  unfolding branches_loop branch_row
  branches_loop-Page zero k k' d enough page is is' room = absurd (omega arith)
  branches_loop-Page (suc fuel) k k' {m = m} {a} {s} (ended w e) enough page is is' room = (
    m,
    rw e (ap (λ j. done (rest_from a j) m (db.step selectbranches w).1) (omega arith)),
    rw (append-nil s) page,
  )
  branches_loop-Page (suc fuel) k k' {m = m} {a} {s} (more w {rows} e d) enough page is is' room =
      let (r, w1) = read_row (db.step selectbranches w).1 in
      let n = length (row_text r) in
      let total = length-append (row_text r) (list_text rows) in
      let (m1, ran, page1) =
        bprintf-Page k (k + n) (row_text r) (branch_line r) page is refl (branch_line-row_text r m)
          (omega (arith, total)) in
      let (m', ran', page') =
        branches_loop-Page fuel (k + n) k' d (omega arith) page1
          (omega (arith, is, length-append s (row_text r))) (omega (arith, total)) room in
      let left : view (at_heap a (k + n)) (sub64 (4096 - k) n) ≡ rest_from a (k + n) =
        rw (sub64_exact (4096 - k) n (omega (arith, total)) (omega arith))
          (ap (view (at_heap a (k + n))) (omega arith)) in
      (
        m',
        rw (e, ran) (ap (λ b. branches_loop db fuel b m1 w1) left ∙ ran'),
        rw (append_assoc s (row_text r) (list_text rows)) at page',
      )

  list_branches-page_response :
      (fuel : ℕ) (user : ℤ) (rows : List BranchRow) (m : Mem) (w : W) {w' : W}
      → is_zero user ≡ false
      → Delivers (db.bind_int64 selectbranches 1 user (db.reset selectbranches w).1).1 rows w'
      → length rows < fuel
      → length (list_text rows) < 4096
      → 4096 ≤ m.room
      → (page : Bytes) × (m' : Mem) × (list_branches db fuel user m w
          ≡ done (page_response page) m' w')
        × Views m' page (list_text rows)
  unfolding list_branches
  list_branches-page_response fuel user rows m w {w'} known d enough short room =
      let k = length (list_text rows) in
      let (m', ran, page) =
        branches_loop-Page fuel 0 k d enough (allocated-Page m) refl (omega arith) short in
      let size : sub64 4096 (4096 - k) ≡ k =
        sub64_exact 4096 (4096 - k) (omega arith) (omega arith) ∙ omega arith in
      (
        view (at_heap m.next 0) k,
        m',
        rw (known, balloc-allocated 4096 m room, ran)
            (ap (λ n. done (page_response (view (at_heap m.next 0) n)) m' w') size),
        record { holds = Page-Holds page; len_is = refl },
      )

  -- Where the cookie names a user, there is memory for a page, and SQLite delivers fewer rows than the
  -- fuel, whose lines have less than 4096 bytes, branches answers with these lines, one for each row in
  -- the order of the rows, and runs to its end without a fault.
  pub http_callback_branches-page_response :
      (fuel : ℕ) (request : HttpRequest) (user : ℤ) (rows : List BranchRow) (m : Mem) (w w1 : W)
      {w' : W}
      → getuserid db request.header m w ≡ done user m w1
      → is_zero user ≡ false
      → Delivers (db.bind_int64 selectbranches 1 user (db.reset selectbranches w1).1).1 rows w'
      → length rows < fuel
      → length (list_text rows) < 4096
      → 4096 ≤ m.room
      → (page : Bytes) × (m' : Mem) × (http_callback_branches db fuel request m w
          ≡ done (page_response page) m' w')
        × Views m' page (list_text rows)
  unfolding http_callback_branches
  http_callback_branches-page_response fuel request user rows m w w1 asked known d enough short
        room =
      let (page, m', ran, views) =
        list_branches-page_response fuel user rows m w1 known d enough short room in
      (page, m', rw asked ran, views)
