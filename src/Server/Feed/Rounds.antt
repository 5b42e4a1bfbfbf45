-- ===== src/Server/Feed/Rounds.antt =====
-- src/server.c: one round of the loop of `http_callback_feed`, on a well-formed record.
use mathlib.Core.List.{append_assoc}
use mathlib.Core.Path.{subst}
use sleepytext.Prelude.{
  ℕ, ◌+◌, ◌%◌, ◌^◌, ◌≤◌, ◌<◌, ◌≡◌, refl, ap, ◌∙◌, true, false, some, List, [], ◌∷◌, ◌++◌, ltb,
  if◌then◌else◌, length, length-append, not, inl, inr, Bool-cases, arith,
}
use sleepytext.Prelude.Words.{int_max, sub64, add64, add64_exact}
use sleepytext.Memory.{Mem, ◌+p◌, ok}
use sleepytext.Memory.Object.{object-Holds}
use sleepytext.Memory.Write.{at_heap, written, written_at}
use sleepytext.Bytes.{Bytes, view, bslice}
use sleepytext.Bytes.Print.{read_bytes}
use sleepytext.Bytes.Print.Cstring.{read_bytes-Holds}
use sleepytext.Http.{http_result, http_bad_request}
use sleepytext.Server.Wire.{le32}
use sleepytext.Server.Wire.Numbers.{be32, load_net32-be32, ntohl_in_place-be32}
use sleepytext.Server.Wire.Path.{branch_name, Ready, branch_path-Opened}
use sleepytext.System.Files.{Files, is_minus_one}
use sleepytext.Server.Feed.{FeedState, next, stop, write_commit, branch_round, insert_round}
use sleepytext.Server.Feed.Items.{encode_item, select, change, stored, flush, length-encode_item}
use sleepytext.System.{done, return}

-- `n` bytes of the payload are left, and `k` bytes wait in front of them to be written. An empty
-- view may point anywhere.
pub record Stands (a off n k : ℕ) (s : FeedState) : Type 0 where
  pub p_len : s.p.len ≡ n
  pub p_ptr : 0 < n → s.p.ptr ≡ at_heap a (off + k)
  pub commit_len : s.commit.len ≡ k
  pub commit_ptr : 0 < k + n → s.commit.ptr ≡ at_heap a off

bslice_bid : (p : Bytes) → 5 ≤ p.len → p.len < 2 ^ 64 → bslice p 1 5 ≡ view (p.ptr +p 1) 4
unfolding bslice sub64
bslice_bid p long small = ground arith

module _ (p : Bytes) (a off n r : ℕ) where
  pub bslice_on_len : p.len ≡ n + r → n + r ≤ int_max → (bslice p n 0).len ≡ r
  unfolding bslice sub64 add64
  bslice_on_len e le = ground arith

  pub bslice_on_ptr :
      p.len ≡ n + r → p.ptr ≡ at_heap a off → 0 < r → (bslice p n 0).ptr ≡ at_heap a (off + n)
  unfolding bslice
  bslice_on_ptr e at some_left = ground arith

pub written-Ready :
    {m : Mem} {a : ℕ} {cs : List ℕ} (ds : List ℕ) → Ready m a cs → Ready (written m a ds) a ds
unfolding written
written-Ready ds r = ground arith

-- What waits to be written is read from the payload.
commit_read :
    (m : Mem) {a n : ℕ} (pre xs post : List ℕ) (s : FeedState)
    → m.objects a ≡ some (pre ++ (xs ++ post))
    → Stands a (length pre) n (length xs) s
    → read_bytes s.commit.len s.commit.ptr m ≡ ok xs m
unfolding read_bytes
commit_read m pre [] post s o st = rw (st.commit_len)
commit_read m {a} pre (x ∷ xs) post s o st =
    rw (st.commit_ptr (omega arith), st.commit_len)
      (read_bytes-Holds (length (x ∷ xs)) (object-Holds a (length pre) pre (x ∷ xs) post o refl)
        refl)

module _ {W : Type 0} (files : Files W) where
  pub write_commit-Stands :
      (m : Mem) {a n : ℕ} (pre pending post : List ℕ) (s : FeedState) (w : W)
      → m.objects a ≡ some (pre ++ (pending ++ post))
      → Stands a (length pre) n (length pending) s
      → write_commit files s m w ≡ done tt m (files.write_file s.file pending w).1
  unfolding write_commit
  write_commit-Stands m pre pending post s w o st = rw (commit_read m pre pending post s o st) refl

  pub insert_round-closed :
      (m : Mem) (s : FeedState) (w : W)
      → is_minus_one s.file ≡ true
      → insert_round files s m w ≡ done (stop (http_result http_bad_request)) m w
  unfolding insert_round
  insert_round-closed m s w closed = rw closed refl

  -- A record `i` is turned round in place and joins what waits to be written.
  pub insert_round-change :
      {m : Mem} {a : ℕ} (pre pending last now post : List ℕ) (place r : ℕ) (s : FeedState) (w : W)
      → Ready m a (pre ++ (pending ++ (encode_item (change place last now) ++ post)))
      → length (pre ++ (pending ++ (encode_item (change place last now) ++ post))) ≤ int_max
      → r ≤ length post
      → Stands a (length pre) (length (encode_item (change place last now)) + r) (length pending) s
      → is_minus_one s.file ≡ false
      → (m' : Mem) × (s' : FeedState) × (insert_round files s m w ≡ done (next s') m' w)
        × Ready m' a (pre ++ ((pending ++ stored place last now) ++ post))
        × Stands a (length pre) r (length (pending ++ stored place last now)) s'
        × (s'.file ≡ s.file)
  unfolding insert_round
  insert_round-change {m} {a} pre pending last now post place r s w ready le small st opened =
      let l : ℕ = length last in
      let n : ℕ = length now in
      let off : ℕ = length pre + length pending in
      let tail : List ℕ = last ++ (now ++ post) in
      let front : List ℕ = pre ++ (pending ++ b'i' ∷ be32 place) in
      let front' : List ℕ = pre ++ (pending ++ b'i' ∷ (be32 place ++ le32 l)) in
      let m₁ : Mem = written m a (front ++ (le32 l ++ (be32 n ++ tail))) in
      let m₂ : Mem = written m₁ a (front' ++ (le32 n ++ tail)) in
      let split : (pre ++ (pending ++ (encode_item (change place last now) ++ post)))
          ≡ front ++ (be32 l ++ (be32 n ++ tail)) =
        simp append_assoc in
      let split' : (front ++ (le32 l ++ (be32 n ++ tail))) ≡ front' ++ (be32 n ++ tail) =
        simp append_assoc in
      let split'' : (front' ++ (le32 n ++ tail))
          ≡ pre ++ ((pending ++ stored place last now) ++ post) =
        simp append_assoc in
      let size : length (encode_item (change place last now)) ≡ 13 + l + n =
        length-encode_item place last now in
      let total = length-append pre (pending ++ (encode_item (change place last now) ++ post)) in
      let total' = length-append pending (encode_item (change place last now) ++ post) in
      let total'' = length-append (encode_item (change place last now)) post in
      let grown : length (pending ++ stored place last now) ≡ length pending + (13 + l + n) =
        omega (arith, length-append pending (stored place last now), length-append last now) in
      let p_is : s.p.ptr ≡ at_heap a off = st.p_ptr (omega arith) in
      let long : ltb s.p.len 13 ≡ false = ground (arith, st.p_len) in
      let last_turned =
        ntohl_in_place-be32 m a (off + 5) l front (be32 n ++ tail) (ready.holds ∙ ap some split)
          (rw (length-append, length-append) (omega arith)) (omega arith) in
      let now_turned =
        ntohl_in_place-be32 m₁ a (off + 9) n front' tail (written_at m a _ ∙ ap some split')
          (rw (length-append, length-append) (omega arith)) (omega arith) in
      let len_is : (13 + l + n) % 2 ^ 32 ≡ 13 + l + n = omega arith in
      let enough : ltb s.p.len (13 + l + n) ≡ false = ground (arith, st.p_len) in
      let s' : FeedState = record s {
        p = bslice s.p (13 + l + n) 0;
        commit = record s.commit { len = add64 s.commit.len (13 + l + n) };
      } in
      (
        m₂,
        s',
        rw (opened, long, p_is, last_turned, now_turned, len_is, enough) refl,
        subst (λ cs. Ready m₂ a cs) split''
            (written-Ready (front' ++ (le32 n ++ tail))
              (written-Ready (front ++ (le32 l ++ (be32 n ++ tail))) ready)),
        record {
          p_len =
              bslice_on_len s.p a off (13 + l + n) r (st.p_len ∙ ap (λ k. k + r) size)
                (omega arith);
          p_ptr = λ h.
              bslice_on_ptr s.p a off (13 + l + n) r (st.p_len ∙ ap (λ k. k + r) size) p_is h
              ∙ ap (at_heap a) (omega arith);
          commit_len =
              add64_exact s.commit.len (13 + l + n) (omega (arith, st.commit_len))
              ∙ omega (arith, st.commit_len);
          commit_ptr = λ h. st.commit_ptr (omega arith);
        },
        refl,
      )

  flush_first :
      (m : Mem) {a n : ℕ} (pre pending post : List ℕ) (s : FeedState) (w : W)
      → m.objects a ≡ some (pre ++ (pending ++ post))
      → Stands a (length pre) n (length pending) s
      → (if not (is_minus_one s.file) then write_commit files s else return tt) m w
        ≡ done tt m (flush files s.file pending w)
  flush_first m pre pending post s w o st = elim (Bool-cases (is_minus_one s.file)) [
    | inl closed ↦ rw closed refl
    | inr open_file ↦ rw open_file (write_commit-Stands m pre pending post s w o st)
  ]

  -- A record `b` writes what waits to be written and opens the file of its branch.
  pub branch_round-select :
      {m : Mem} {a : ℕ} (pre pending post : List ℕ) (id r : ℕ) (s : FeedState) (w : W)
      → Ready m a (pre ++ (pending ++ (encode_item (select id) ++ post)))
      → length (pre ++ (pending ++ (encode_item (select id) ++ post))) ≤ int_max
      → r ≤ length post
      → id < 2 ^ 32
      → Stands a (length pre) (5 + r) (length pending) s
      → (m' : Mem) × Ready m' a (pre ++ (pending ++ (encode_item (select id) ++ post)))
        × (branch_round files s m w ≡ (
            let opened = files.open_append (branch_name id) (flush files s.file pending w) in
            if is_minus_one opened.0
            then done (stop (http_result http_bad_request)) m' opened.1
            else done
                (next (record {
                  p = bslice s.p 5 0;
                  commit = view (bslice s.p 5 0).ptr 0;
                  file = opened.0;
                }))
                m'
                opened.1))
  unfolding branch_round
  branch_round-select {m} {a} pre pending post id r s w ready le small fits st =
      let o = branch_path-Opened id ready in
      let off : ℕ = length pre + length pending in
      let bid = bslice_bid s.p (omega (arith, st.p_len)) (
        omega (
          arith,
          st.p_len,
          length-append pre (pending ++ (encode_item (select id) ++ post)),
          length-append pending (encode_item (select id) ++ post),
        )) in
      let loaded = load_net32-be32 {m = m} id fits (
        object-Holds a (off + 1) (pre ++ (pending ++ b'b' ∷ [])) (be32 id) post
          (ready.holds ∙ ap some (simp append_assoc))
          (rw (length-append, length-append) (omega arith))) in
      let file = (files.open_append (branch_name id) (flush files s.file pending w)).0 in
      (
        o.after,
        o.ready,
        rw
            (
              flush_first m pre pending _ s w ready.holds st,
              bid,
              st.p_ptr (omega arith),
              loaded,
              o.path_printed,
              o.path_read,
              o.path_freed,
            )
            (elim (Bool-cases (is_minus_one file)) [
              | inl failed ↦ rw failed refl
              | inr opened ↦ rw opened refl
            ]),
      )
