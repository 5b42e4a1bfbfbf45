-- ===== src/Start/Stop.antt =====
-- src/server.c: how `stop` ends, on a connection that behaves as src/sqlite3.h documents.
use sleepytext.Prelude.{
  ℕ, suc, ◌+◌, ◌≡◌, refl, ◌∙◌, ap, not, Bool, true, false, ◌&&◌, ◌==◌, Option, none, List, [], ◌∷◌,
  ◌++◌, if◌then◌else◌, arith, inl, inr, Bool-cases,
}
use sleepytext.Prelude.Int.{ℤ, same_int}
use sleepytext.Memory.{Mem}
use sleepytext.Server.Sql.{ResultCode, sqlite_ok}
use sleepytext.Start.{prepare_all, finalize_loop, stop}
use sleepytext.Start.Prepared.{
  Connection, prepare_statement, connection, is_in, without, finalize_statement, next_statement,
}
use sleepytext.System.{return, Reply, crashed, done}

is_in-without : (p : ℕ) (qs : List ℕ) → is_in p (without p qs) ≡ false
is_in-without p [] = refl
is_in-without p (q ∷ qs) = elim (Bool-cases (p == q)) [
  | inl same ↦ rw same (is_in-without p qs)
  | inr other ↦ rw (other, is_in-without p qs, other) refl
]

abbrev pub is_empty : List ℕ → Bool
is_empty [] = true
is_empty (p ∷ ps) = false

abbrev is_empty_list : List (List ℕ) → Bool
is_empty_list [] = true
is_empty_list (x ∷ xs) = false

is_empty-append : (ps : List ℕ) (p : ℕ) → is_empty (ps ++ (p ∷ [])) ≡ false
is_empty-append [] p = refl
is_empty-append (q ∷ ps) p = refl

module _ (opening refusal : List ℕ → Option ResultCode) where
  stop_lem :
      (fuel : ℕ) (c : Connection) (statements : List ℕ) (m : Mem)
      → c.statements ≡ statements
      → stop (connection opening refusal) (suc (suc fuel)) m c ≡ (
          if is_empty statements
          then done tt m (record c { is_interrupted = c.is_running; is_open = false })
          else crashed)
  unfolding stop finalize_loop connection finalize_statement next_statement
  stop_lem fuel c [] m e = rw e refl
  stop_lem fuel c (p ∷ ps) m e =
      let same : (p == p) ≡ true = ground arith in rw (e, same, is_in-without p ps) refl

  -- SQLite finds nothing wrong with the texts.
  abbrev pub Accepts : List (List ℕ) → Type 0
  Accepts [] = Unit
  Accepts (sql ∷ rest) = (refusal sql ≡ none) × Accepts rest

  accepted :
      (sql : List ℕ) (c : Connection)
      → refusal sql ≡ none
      → prepare_statement opening refusal sql c
        ≡ (sqlite_ok, record c { statements = c.statements ++ (c.next ∷ []); next = c.next + 1 })
  accepted sql c e = rw (prepare_statement, e) refl

  -- The rest of `prepare_all` behind an answer.
  abbrev go_on : List (List ℕ) → Mem → ℤ × Connection → Reply Connection Bool
  go_on rest m (code, c) =
      (if not (same_int code sqlite_ok)
          then return false
          else prepare_all (connection opening refusal) rest)
        m c

  some_prepared :
      (sqls : List (List ℕ)) (c : Connection) (m : Mem)
      → Accepts sqls
      → (c' : Connection) × (prepare_all (connection opening refusal) sqls m c ≡ done true m c')
        × (is_empty c'.statements ≡ (is_empty c.statements && is_empty_list sqls))
  unfolding prepare_all connection
  some_prepared [] c m good = (c, refl, ground arith)
  some_prepared (sql ∷ rest) c m good =
      let c1 : Connection = record c {
        statements = c.statements ++ (c.next ∷ []);
        next = c.next + 1;
      } in
      let (c', ran, empty) = some_prepared rest c1 m good.1 in
      (
        c',
        ap (go_on rest m) (accepted sql c good.0) ∙ ran,
        rw (empty, is_empty-append c.statements c.next) (ground arith),
      )

  -- On a connection that behaves as documented, and whose SQLite accepts the texts of at least one
  -- statement, all statements are prepared, and `stop` then asks for the statement behind one that it
  -- has finalized, which is undefined.
  pub prepare_all-stop :
      (fuel : ℕ) (sql : List ℕ) (rest : List (List ℕ)) (c : Connection) (m : Mem)
      → Accepts (sql ∷ rest)
      → (c' : Connection) × (prepare_all (connection opening refusal) (sql ∷ rest) m c
          ≡ done true m c')
        × (stop (connection opening refusal) (suc (suc fuel)) m c' ≡ crashed)
  prepare_all-stop fuel sql rest c m good =
      let (c', ran, empty) = some_prepared (sql ∷ rest) c m good in
      let some_left : is_empty c'.statements ≡ false = empty ∙ ground arith in
      (c', ran, stop_lem fuel c' c'.statements m refl ∙ rw some_left refl)
