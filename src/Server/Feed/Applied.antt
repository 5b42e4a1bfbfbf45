-- ===== src/Server/Feed/Applied.antt =====
-- src/server.c: `http_callback_feed` on a well-formed payload does what the list of its records
-- says, whatever the files answer.
use mathlib.Core.List.{append_assoc, append-nil}
use sleepytext.Prelude.{
  ℕ, zero, suc, ◌+◌, ◌≤◌, ◌<◌, ◌≡◌, refl, ap, ◌∙◌, true, false, some, List, [], ◌∷◌, ◌++◌, ltb,
  length, length-append, inl, inr, Bool-cases, arith,
}
use sleepytext.Prelude.Int.{ℤ, negsuc}
use sleepytext.Prelude.Words.{int_max}
use sleepytext.Memory.{Mem, ok, load}
use sleepytext.Memory.Holds.{Holds-load}
use sleepytext.Memory.Object.{object-Holds}
use sleepytext.Memory.Write.{at_heap}
use sleepytext.Bytes.{view, bslice}
use sleepytext.Http.{HttpRequest, http_result}
use mathlib.Core.Path.{subst}
use sleepytext.Server.Wire.Numbers.{be32}
use sleepytext.Server.Wire.Path.{branch_name, Ready}
use sleepytext.System.Files.{Files, is_minus_one}
use sleepytext.Server.Feed.{FeedState, feed_round, feed_loop, http_callback_feed}
use sleepytext.Server.Feed.Items.{
  Item, select, change, encode_item, encode, stored, AreItems, apply, flush,
}
use sleepytext.Server.Feed.Rounds.{
  Stands, bslice_on_len, bslice_on_ptr, write_commit-Stands, insert_round-change,
  insert_round-closed, branch_round-select,
}
use sleepytext.System.{done}

-- The first byte of the next record.
load_kind :
    {m : Mem} {a n : ℕ} (pre pending rest : List ℕ) (c : ℕ) (s : FeedState)
    → m.objects a ≡ some (pre ++ (pending ++ c ∷ rest))
    → Stands a (length pre) (suc n) (length pending) s
    → load s.p.ptr m ≡ ok c m
load_kind {m} {a} pre pending rest c s o st = rw (st.p_ptr (omega arith)) (
    Holds-load (
      object-Holds {m = m} a (length pre + length pending) (pre ++ pending) (c ∷ rest) []
        (o ∙ ap some (simp (append_assoc, append-nil))) (rw length-append (omega arith))))

-- Turning the lengths round does not change the size of the payload.
same_size :
    (pre pending last now rest : List ℕ) (place : ℕ)
    → length (pre ++ (pending ++ (encode_item (change place last now) ++ rest))) ≤ int_max
    → length (pre ++ ((pending ++ stored place last now) ++ rest)) ≤ int_max
same_size pre pending last now rest place h = omega (
  arith,
  length-append pre (pending ++ (encode_item (change place last now) ++ rest)),
  length-append pending (encode_item (change place last now) ++ rest),
  length-append (encode_item (change place last now)) rest,
  length-append pre ((pending ++ stored place last now) ++ rest),
  length-append (pending ++ stored place last now) rest,
  length-append pending (stored place last now),
  length-append last now,
)

module _ {W : Type 0} (files : Files W) (a : ℕ) (post : List ℕ) where
  abbrev Answered : ℕ → List Item → List ℕ → FeedState → Mem → W → ℤ → Type 0
  Answered fuel items waiting s m w file =
      (m' : Mem) × (feed_loop files fuel s m w
        ≡ done (http_result (apply files file waiting items w).0) m'
            (apply files file waiting items w).1)

  feed_loop-apply :
      (fuel : ℕ) (items : List Item) (pre pending : List ℕ) (m : Mem) (s : FeedState) (w : W)
      → Ready m a (pre ++ (pending ++ (encode items ++ post)))
      → length (pre ++ (pending ++ (encode items ++ post))) ≤ int_max
      → AreItems items
      → length items < fuel
      → Stands a (length pre) (length (encode items)) (length pending) s
      → Answered fuel items pending s m w s.file
  unfolding feed_loop feed_round apply
  feed_loop-apply zero items pre pending m s w ready le good enough st = absurd (omega arith)
  feed_loop-apply (suc fuel) [] pre pending m s w ready le good enough st =
      let at_end : ltb 0 s.p.len ≡ false = ground (arith, st.p_len) in
      (m, rw (at_end, write_commit-Stands files m pre pending post s w ready.holds st) refl)
  feed_loop-apply (suc fuel) (select id ∷ items) pre pending m s w ready le good enough st =
      let rest : List ℕ = encode items ++ post in
      let cs_is : (pre ++ (pending ++ (encode (select id ∷ items) ++ post)))
          ≡ pre ++ (pending ++ (encode_item (select id) ++ rest)) =
        refl in
      let some_left : ltb 0 s.p.len ≡ true = ground (arith, st.p_len) in
      let size = length-append (encode items) post in
      let size' = length-append pre (pending ++ (encode_item (select id) ++ rest)) in
      let size'' = length-append pending (encode_item (select id) ++ rest) in
      let st₅ : Stands a (length pre) (5 + length (encode items)) (length pending) s =
        subst (λ k. Stands a (length pre) k (length pending) s) (omega arith) st in
      let kind = load_kind {m = m} pre pending (be32 id ++ rest) b'b' s ready.holds st in
      let (m₁, ready₁, ran) =
        branch_round-select files pre pending rest id (length (encode items)) s w ready le
          (omega arith) good.0 st₅ in
      let opened = files.open_append (branch_name id) (flush files s.file pending w) in
      let pre₁ : List ℕ = pre ++ (pending ++ encode_item (select id)) in
      let s₁ : FeedState = record {
        p = bslice s.p 5 0;
        commit = view (bslice s.p 5 0).ptr 0;
        file = opened.0;
      } in
      let moved : (pre ++ (pending ++ (encode_item (select id) ++ rest))) ≡ pre₁ ++ rest =
        simp append_assoc in
      let pre_size : length pre₁ ≡ length pre + length pending + 5 =
        rw (length-append, length-append) (omega arith) in
      let next_ptr = λ (h : 0 < length (encode items)).
        bslice_on_ptr s.p a (length pre + length pending) 5 (length (encode items)) st₅.p_len
          (st.p_ptr (omega arith)) h in
      let st₁ : Stands a (length pre₁) (length (encode items)) 0 s₁ = record {
        p_len = bslice_on_len s.p a 0 5 (length (encode items)) st₅.p_len (omega arith);
        p_ptr = λ h. next_ptr h ∙ ap (at_heap a) (omega arith);
        commit_len = refl;
        commit_ptr = λ h. next_ptr (omega arith) ∙ ap (at_heap a) (omega arith);
      } in
      elim (Bool-cases (is_minus_one opened.0)) [
        | inl failed ↦ (m₁, rw (some_left, kind, ran, failed) refl)
        | inr good_file ↦
            let (m₂, done₂) =
              feed_loop-apply fuel items pre₁ [] m₁ s₁ opened.1
                (subst (λ cs. Ready m₁ a cs) moved ready₁)
                (subst (λ cs. length cs ≤ int_max) moved le) good.1 (omega arith) st₁ in
            (m₂, rw (some_left, kind, ran, good_file) done₂)
      ]
  feed_loop-apply (suc fuel) (change place last now ∷ items) pre pending m s w ready le good enough
        st =
      let rest : List ℕ = encode items ++ post in
      let record_bytes : List ℕ = encode_item (change place last now) in
      let waiting : List ℕ = pending ++ stored place last now in
      let cs_is : (pre ++ (pending ++ (encode (change place last now ∷ items) ++ post)))
          ≡ pre ++ (pending ++ (record_bytes ++ rest)) =
        ap (λ t. pre ++ (pending ++ t)) (append_assoc record_bytes (encode items) post) in
      let some_left : ltb 0 s.p.len ≡ true = ground (arith, st.p_len) in
      let size = length-append (encode items) post in
      let sizes : length (encode (change place last now ∷ items))
          ≡ length record_bytes + length (encode items) =
        length-append record_bytes (encode items) in
      let st' : Stands a (length pre) (length record_bytes + length (encode items)) (length pending)
          s =
        subst (λ k. Stands a (length pre) k (length pending) s) sizes st in
      let kind = load_kind {m = m} pre pending _ b'i' s ready.holds st in
      elim (Bool-cases (is_minus_one s.file)) [
        | inl closed ↦
            (m, rw (some_left, kind, insert_round-closed files m s w closed, closed) refl)
        | inr opened ↦
            let le' : length (pre ++ (pending ++ (record_bytes ++ rest))) ≤ int_max =
              rw cs_is at le in
            let (m₁, s₁, ran, ready₁, st₁, file_is) =
              insert_round-change files pre pending last now rest place (length (encode items)) s w
                (subst (λ cs. Ready m a cs) cs_is ready) le' (omega arith) st' opened in
            let (m₂, done₂) =
              subst (λ file. Answered fuel items waiting s₁ m₁ w file) file_is
                (feed_loop-apply fuel items pre waiting m₁ s₁ w ready₁
                  (same_size pre pending last now rest place le') good (omega arith) st₁) in
            (m₂, rw (some_left, kind, ran, opened) done₂)
      ]

-- On a payload that is the encoding of a list of records, each branch number below 2^32, in an
-- object of at most 2^31 - 1 bytes, with room for a path of 256 bytes, http_callback_feed with more
-- fuel than there are records runs to its end: its answer, the files it opens and what it writes to
-- them are those of `apply`, which reads the list.
pub http_callback_feed-apply :
    {W : Type 0} (files : Files W) (fuel : ℕ) (items : List Item) {m : Mem} {a : ℕ}
    (pre post : List ℕ) (request : HttpRequest) (w : W)
    → Ready m a (pre ++ (encode items ++ post))
    → length (pre ++ (encode items ++ post)) ≤ int_max
    → AreItems items
    → length items < fuel
    → request.payload ≡ view (at_heap a (length pre)) (length (encode items))
    → (m' : Mem) × (http_callback_feed files fuel request m w
        ≡ done
            (http_result (apply files (negsuc 0) [] items w).0)
            m'
            (apply files (negsuc 0) [] items w).1)
unfolding http_callback_feed
http_callback_feed-apply files fuel items {m} {a} pre post request w ready le good enough is =
    feed_loop-apply files a post fuel items pre [] m _ w ready le good enough (record {
      p_len = ap (λ b. b.len) is;
      p_ptr = λ h. ap (λ b. b.ptr) is ∙ ap (at_heap a) (omega arith);
      commit_len = refl;
      commit_ptr = λ h. ap (λ b. b.ptr) is;
    })
